-- ===== src/Infra/Postgres/Policies/Laws.antt =====
-- The access policy under an OID. What is asked of PostgreSQL: `lfs_object_oid` is unique, so that an
-- upsert inserts a row where there is none and changes the repository of the row that is there. A column
-- TIMESTAMP keeps of a time what `kept` says.
-- The row that an upsert at `t` leaves, after the row that it found.
use mathlib.Core.Path.{subst}
use cargohold.Domain.Object.{Time}
use cargohold.Domain.Oid.{Oid, new_oid}
use cargohold.Domain.Policy.{AccessPolicy, AccessPolicyId, new_access_policy_id}
use cargohold.Domain.Repository.{RepositoryIdentifier, full_name, new_repository_identifier}
use cargohold.Domain.Repository.Laws.{IsIdentifier, new_repository_identifier-eq-ok_iff}
use cargohold.Exec.{Result, ok, ◌>>=◌}
use cargohold.Exec.Keeps.{
  Result-cases, bind_returned, lift_returned, ok_inj, on_error_returned, pure_returned,
  then_ok-eq-ok,
}
use cargohold.Infra.Caching.Laws.{View}
use cargohold.Infra.Postgres.{AccessPolicyRow, Pool, upsert_policy}
use cargohold.Infra.Postgres.Policies.{
  access_policy_to_row, find_policy, find_policy_row, row_to_access_policy, save_owned, save_policy,
  upsert_policy_row,
}
use cargohold.Prelude.{Option, ap, arith, inl, inr, none, refl, some, some_inj, sym, ℕ, ◌∙◌, ◌≡◌}
use cargohold.Prelude.Int.{ℤ}
use cargohold.Prelude.Text.{Text}

abbrev pub IsUpserted : (Time → Time) → Option AccessPolicyRow → Time → AccessPolicyRow → Type 0
IsUpserted kept none t row = row.created_at ≡ kept t
IsUpserted kept (some old) t row = (row.id ≡ old.id) × (row.created_at ≡ old.created_at)

pub record IsPolicyTable {W : Type 0} (pool : Pool W) (rows : View W AccessPolicyRow) : Type 0 where
  pub kept : Time → Time
  pub select-ok :
      (k : Text) (w : W) (r : AccessPolicyRow) → (pool.policy_row k w).0 ≡ ok r → rows w k ≡ some r
  pub upsert-rows :
      (k r : Text) (t : Time) (w : W) (n : ℕ)
      → (pool.exec (upsert_policy k r t) w).0 ≡ ok n
      → (row : AccessPolicyRow) × (rows (pool.exec (upsert_policy k r t) w).1 k ≡ some row)
        × (row.lfs_object_oid ≡ k)
        × (row.repository ≡ r)
        × IsUpserted kept (rows w k) t row

new_access_policy_id-value :
    (n : ℤ) (i : AccessPolicyId) → new_access_policy_id n ≡ ok i → i.value ≡ n
unfolding new_access_policy_id
new_access_policy_id-value n i h = ground arith

-- The fields of a row that was read.
row_to_access_policy-fields :
    (row : AccessPolicyRow) (p : AccessPolicy)
    → row_to_access_policy row ≡ ok p
    → (p.id.value ≡ row.id)
      × (new_oid row.lfs_object_oid ≡ ok p.oid)
      × ((r : RepositoryIdentifier) × (p.repository ≡ some r)
          × (new_repository_identifier row.repository ≡ ok r))
      × (p.created_at ≡ row.created_at)
unfolding row_to_access_policy
row_to_access_policy-fields row p h =
    let (policy_id, identified, h) = then_ok-eq-ok (new_access_policy_id row.id) _ h in
    let (oid, hex, h) = then_ok-eq-ok (new_oid row.lfs_object_oid) _ h in
    let (repo, parsed, e) = then_ok-eq-ok (new_repository_identifier row.repository) _ h in
    (
      cc (e, new_access_policy_id-value row.id policy_id identified),
      cc (e, hex),
      (repo, cc e, parsed),
      cc e,
    )

-- The policy that is found where `p` was saved for `r`.
pub record IsSaved (kept : Time → Time) (p : AccessPolicy) (r : RepositoryIdentifier)
    (old : Option AccessPolicyRow) (q : AccessPolicy) : Type 0 where
  pub under : q.oid ≡ p.oid
  pub owner : q.repository ≡ some r
  pub first : old ≡ none → q.created_at ≡ kept p.created_at
  pub again :
      (o : AccessPolicyRow) → old ≡ some o → (q.id.value ≡ o.id) × (q.created_at ≡ o.created_at)

module _ {W : Type 0} (pool : Pool W) (rows : View W AccessPolicyRow)
    (table : IsPolicyTable pool rows) where
  save_policy-IsUpserted :
      (p : AccessPolicy) (r : RepositoryIdentifier) (w w' : W)
      → p.repository ≡ some r
      → save_policy pool p w ≡ (ok tt, w')
      → (row : AccessPolicyRow) × (rows w' p.oid.value ≡ some row)
        × (row.lfs_object_oid ≡ p.oid.value)
        × (row.repository ≡ full_name r)
        × IsUpserted table.kept (rows w p.oid.value) p.created_at row
  unfolding save_policy save_owned upsert_policy_row access_policy_to_row ◌>>=◌
  save_policy-IsUpserted p r w w' owned h =
      let sent = pool.exec (upsert_policy p.oid.value (full_name r) p.created_at) w in
      let h = rw owned at h in
      elim (Result-cases sent.0) [
        | inr (x, failed) ↦ cc (ap (λ (z : Result (Unit {0}) × W). z.0) (rw failed at h))
        | inl (n, done) ↦
            subst
              (λ u.
                (row : AccessPolicyRow) × (rows u p.oid.value ≡ some row)
                × (row.lfs_object_oid ≡ p.oid.value)
                × (row.repository ≡ full_name r)
                × IsUpserted table.kept (rows w p.oid.value) p.created_at row)
              (ap (λ (z : Result (Unit {0}) × W). z.1) (rw done at h))
              (table.upsert-rows p.oid.value (full_name r) p.created_at w n done)
      ]

  find_policy-read :
      (o : Oid) (w v : W) (q : Option AccessPolicy)
      → find_policy pool o w ≡ (ok q, v)
      → (row : AccessPolicyRow) × (p : AccessPolicy) × (rows w o.value ≡ some row)
        × (row_to_access_policy row ≡ ok p)
        × (q ≡ some p)
  unfolding find_policy find_policy_row
  find_policy-read o w v q h =
      let (row, v1, asked, h) = bind_returned _ _ w v q h in
      let (p, v2, lifted, h) = bind_returned _ _ v1 v q h in
      let asked' = on_error_returned _ _ row w v1 (on_error_returned _ _ row w v1 asked) in
      (
        row,
        p,
        table.select-ok o.value w row (ap (λ (z : Result AccessPolicyRow × W). z.0) asked'),
        (lift_returned _ v1 v2 p lifted).0,
        sym (pure_returned _ q v2 v h).0,
      )

  -- Over a table with one row for each OID: after a policy with a valid OID was saved for a parsed
  -- repository, without an error, a lookup that answers finds a policy with this OID and this
  -- repository, read back from its full name, and with the number and the time of the row: for the
  -- first policy what the column keeps of the time that was given, for a later one what the row had
  -- before.
  pub find_policy-save_policy :
      (p : AccessPolicy) (r : RepositoryIdentifier) (w w' v : W) (q : Option AccessPolicy)
      → new_oid p.oid.value ≡ ok p.oid
      → IsIdentifier r
      → p.repository ≡ some r
      → save_policy pool p w ≡ (ok tt, w')
      → find_policy pool p.oid w' ≡ (ok q, v)
      → (a : AccessPolicy) × (q ≡ some a) × IsSaved table.kept p r (rows w p.oid.value) a
  find_policy-save_policy p r w w' v q hex good owned saved found =
      let (row, here, at, of, ups) = save_policy-IsUpserted p r w w' owned saved in
      let (row', a, here', read, is) = find_policy-read p.oid w' v q found in
      let same = some_inj (sym here' ∙ here) in
      let (number, oid, (r', owner, parsed), time) =
        row_to_access_policy-fields row a (rw same at read) in
      let again = (new_repository_identifier-eq-ok_iff (full_name r) r).1 (refl, good) in
      (
        a,
        is,
        record {
          under = ok_inj (sym oid ∙ (ap new_oid at ∙ hex));
          owner = owner ∙ ap some (ok_inj (sym parsed ∙ (ap new_repository_identifier of ∙ again)));
          first = λ e. time ∙ rw e at ups;
          again = λ o e. let ups' = rw e at ups in (number ∙ ups'.0, time ∙ ups'.1);
        },
      )
