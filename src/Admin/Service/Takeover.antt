-- ===== src/Admin/Service/Takeover.antt =====
-- Updates by number: what becomes of a row whose tenant the handler does not look up.
use pro_identity_mail.Prelude.{
  ℕ, ◌≡◌, ◌≢◌, refl, List, [], ◌∷◌, Bool, true, false, ◌||◌, Option, some, ◌==◌, All, Bool-cases,
  inl, inr, arith, subst, sym,
}
use pro_identity_mail.Text.{Text, is_empty, trim_space}
use pro_identity_mail.Session.Manager.{Manager, Request}
use pro_identity_mail.Admin.Models.{Alias}
use pro_identity_mail.Admin.Calls.{Call}
use pro_identity_mail.Admin.Access.{AdminPrincipal, can_write_tenant, require_tenant_write}
use pro_identity_mail.Admin.Names.{normalize_local_part, normalize_address_list}
use pro_identity_mail.Admin.Rows.{update_rows, update_where}
use pro_identity_mail.Admin.SqlStore.{Database, Statement, change, Result, exec_one}
use pro_identity_mail.Admin.SqlStore.Keeps.{scan-keeps}
use pro_identity_mail.Admin.Service.Effects.{answer-database}
use pro_identity_mail.Admin.SqlStore.Changes.{exec, update_alias}
use pro_identity_mail.Admin.Handlers.{
  Context, go, continue, ◌>>=◌, pure, stop_if, some_or, permit, have_store, parse_path_uint,
}
use pro_identity_mail.Admin.Handlers.Routing.{AliasBody}
use pro_identity_mail.Admin.Handlers.Routing
use pro_identity_mail.Admin.Handlers.Endpoints.{Outside, Endpoint, plan}
use pro_identity_mail.Admin.Service.{State, perform, context, act, serve}

every_updated :
    (id tenant : ℕ) (row_of : Alias → Alias) (rs : List Alias)
    → ((r : Alias) → (row_of r).tenant_id ≡ tenant)
    → All (λ r. r.id ≡ id → r.tenant_id ≡ tenant) (update_rows (λ r. r.id == id) row_of rs)
unfolding update_rows
every_updated id tenant row_of [] h = tt
every_updated id tenant row_of (r ∷ rs) h =
    let rest = every_updated id tenant row_of rs h in
    elim (Bool-cases (r.id == id)) [
      | inl e ↦ rw e ((λ _. h r), rest)
      | inr e ↦ rw e ((λ same. absurd (grind (arith, e, same))), rest)
    ]

-- the rows with a number belong to a tenant
abbrev pub AliasOf : ℕ → ℕ → Database → Type 0
AliasOf id tenant db = All (λ r. r.id ≡ id → r.tenant_id ≡ tenant) db.aliases.rows

update_alias-moves :
    (rejects : Database → Statement → Bool) (db : Database) (a : Alias)
    → rejects db (change (Call.update_alias a)) ≡ false
    → AliasOf a.id a.tenant_id (update_alias rejects db a).0
unfolding update_alias update_where exec_one
update_alias-moves rejects db a accepted =
    scan-keeps (AliasOf a.id a.tenant_id) _ _ _
      (rw accepted (every_updated a.id a.tenant_id _ db.aliases.rows (λ r. refl)))

module _ (outside : Outside) (c : Context) where
  -- a good body goes on with the change, whoever owns the alias
  update_alias-goes :
      (id : ℕ) (req : AliasBody) (source destination : Text) (s : Option Manager)
      → c.has_store ≡ true
      → id ≢ 0
      → normalize_local_part req.source_local_part ≡ some source
      → normalize_address_list outside.parse_address req.destination ≡ some destination
      → (req.tenant_id == 0
          || req.domain_id == 0
          || is_empty (trim_space source)
          || is_empty (trim_space destination))
        ≡ false
      → can_write_tenant c.principal req.tenant_id ≡ true
      → Routing.update_alias outside.parse_address c (some id) (some req) s ≡ (
        go (
            Call.update_alias (record {
              id = id;
              tenant_id = req.tenant_id;
              domain_id = req.domain_id;
              source_local_part = source;
              destination = destination;
            })),
        s,
      )
  unfolding Routing.update_alias ◌>>=◌ continue pure stop_if some_or permit have_store
      parse_path_uint require_tenant_write
  update_alias-goes id req source destination s stored ne src dst full writes =
      let nonzero : (id == 0) ≡ false = ground (arith, ne) in
      simp (Routing.update_alias, stored, nonzero, src, dst, full, writes)

-- A principal that can write the tenant of a good body makes every alias with the number of the path
-- an alias of that tenant, whichever tenant it belonged to, if the database takes the change: neither
-- the handler nor the store looks at the tenant that the alias has.
pub serve-takes_over :
    (rejects : Database → Statement → Bool) (hash : Text → Text) (outside : Outside)
    (elsewhere : Database → Call → Result) (queued : Bool) (p : AdminPrincipal) (now : ℕ)
    (request : Request) (state : State) (id : ℕ) (req : AliasBody) (source destination : Text)
    → id ≢ 0
    → normalize_local_part req.source_local_part ≡ some source
    → normalize_address_list outside.parse_address req.destination ≡ some destination
    → (req.tenant_id == 0
        || req.domain_id == 0
        || is_empty (trim_space source)
        || is_empty (trim_space destination))
      ≡ false
    → can_write_tenant p req.tenant_id ≡ true
    → rejects state.database (
        change (
          Call.update_alias (record {
            id = id;
            tenant_id = req.tenant_id;
            domain_id = req.domain_id;
            source_local_part = source;
            destination = destination;
          })))
      ≡ false
    → AliasOf id req.tenant_id
        (serve rejects hash outside elsewhere queued p now request
          (Endpoint.update_alias (some id) (some req))
          state).0.database
unfolding serve plan act context perform exec
serve-takes_over rejects hash outside elsewhere queued p now request state id req source destination
      ne src dst full writes accepted =
    let c = context rejects p now request state.database in
    let goes =
      update_alias-goes outside c id req source destination state.sessions refl ne src dst full
        writes in
    let alias : Alias = record {
      id = id;
      tenant_id = req.tenant_id;
      domain_id = req.domain_id;
      source_local_part = source;
      destination = destination;
    } in
    let moved = update_alias-moves rejects state.database alias accepted in
    rw goes (
      subst (AliasOf id req.tenant_id)
        (sym (answer-database queued state.sessions state (Call.update_alias alias) _)) moved)
