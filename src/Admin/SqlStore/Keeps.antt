-- ===== src/Admin/SqlStore/Keeps.antt =====
-- What holds before a statement and after it holds of whatever its execution leaves.
use pro_identity_mail.Prelude.{Bool, true, false, if◌then◌else◌}
use pro_identity_mail.Admin.SqlStore.{
  Database, done, missing, failed, other_error, Stored, exec_one, scan,
}

module _ (P : Database → Type 0) where
  pub exec_one-keeps :
      (rejected : Bool) (before after : Database)
      → P before
      → P after
      → P (exec_one rejected before after).0
  unfolding exec_one
  exec_one-keeps true before after b a = b
  exec_one-keeps false before after b a = a

  pub scan-keeps : (broken found : Bool) (st : Stored) → P st.0 → P (scan broken found st).0
  unfolding scan
  scan-keeps broken found (db, done) h = h
  scan-keeps broken found (db, missing) h = h
  scan-keeps broken found (db, failed) h = h
  scan-keeps broken found (db, other_error status) h = h

  pub either : (test : Bool) (x y : Stored) → P x.0 → P y.0 → P (if test then x else y).0
  either true x y a b = a
  either false x y a b = b
