-- ===== src/Domain/Repository/Laws.antt =====
-- Parsing and printing "owner/repo".
-- What `NewRepositoryIdentifier` promises of its results.
use cargohold.Domain.Repository.{
  AllowedRepository, RepositoryIdentifier, allowed_of, equals, from_parts, full_name,
  new_allowed_repository, new_allowed_repository_from_string, new_repository_identifier,
}
use cargohold.Exec.{Result, err, ok}
use cargohold.Exec.Keeps.{ok_inj}
use cargohold.Prelude.{List, [], ap, arith, refl, some, sym, true, ◌++◌, ◌↔◌, ◌∙◌, ◌∷◌, ◌≡◌, ◌≢◌}
use cargohold.Prelude.Text.{Text, text_eq_iff}
use cargohold.Prelude.Text.Split.{
  Lacks, join, join-split, split, split-All, split-Lacks, split-append,
}

pub record IsIdentifier (r : RepositoryIdentifier) : Type 0 where
  pub has_owner : r.owner ≢ []
  pub has_name : r.name ≢ []
  pub plain_owner : Lacks b'/' r.owner
  pub plain_name : Lacks b'/' r.name

from_parts-full_name :
    (ps : List Text) (r : RepositoryIdentifier)
    → from_parts ps ≡ ok r
    → (ps ≡ r.owner ∷ r.name ∷ []) × (r.owner ≢ []) × (r.name ≢ [])
unfolding from_parts
from_parts-full_name [] r h = cc h
from_parts-full_name (o ∷ []) r h = cc h
from_parts-full_name (o ∷ n ∷ []) r h = ground (arith, text_eq_iff o [], text_eq_iff n [])
from_parts-full_name (o ∷ n ∷ q ∷ ps) r h = cc h

new_repository_identifier_lem : (s : Text) → new_repository_identifier s ≡ from_parts (split s b'/')
unfolding new_repository_identifier
new_repository_identifier_lem s = refl

parsed_parts :
    (s : Text) (r : RepositoryIdentifier)
    → new_repository_identifier s ≡ ok r
    → (split s b'/' ≡ r.owner ∷ r.name ∷ []) × (r.owner ≢ []) × (r.name ≢ [])
parsed_parts s r h = from_parts-full_name (split s b'/') r (rw new_repository_identifier_lem at h)

parsed-full_name :
    (s : Text) (r : RepositoryIdentifier) → new_repository_identifier s ≡ ok r → full_name r ≡ s
unfolding full_name join
parsed-full_name s r h =
    let e = (parsed_parts s r h).0 in ap (λ ps. join ps b'/') (sym e) ∙ join-split s b'/'

pub parsed-IsIdentifier :
    (s : Text) (r : RepositoryIdentifier) → new_repository_identifier s ≡ ok r → IsIdentifier r
parsed-IsIdentifier s r h =
    let (e, has_owner, has_name) = parsed_parts s r h in
    let lacking = (rw e at (split-All s b'/')) in
    record {
      has_owner = has_owner;
      has_name = has_name;
      plain_owner = lacking.0;
      plain_name = lacking.1.0;
    }

from_two_parts :
    (o n : Text) → o ≢ [] → n ≢ [] → from_parts (o ∷ n ∷ []) ≡ ok (record { owner = o; name = n })
unfolding from_parts
from_two_parts o n ho hn = ground (arith, text_eq_iff o [], text_eq_iff n [])

printed :
    (r : RepositoryIdentifier) → IsIdentifier r → new_repository_identifier (full_name r) ≡ ok r
unfolding full_name
printed r v =
    rw
      (
        new_repository_identifier_lem,
        split-append b'/' r.owner r.name v.plain_owner,
        split-Lacks b'/' r.name v.plain_name,
      )
      (from_two_parts r.owner r.name v.has_owner v.has_name)

-- A text parses to an identifier exactly when it is the full name of that identifier, whose owner
-- and name are not empty and hold no slash.
pub new_repository_identifier-eq-ok_iff :
    (s : Text) (r : RepositoryIdentifier)
    → (new_repository_identifier s ≡ ok r) ↔ ((full_name r ≡ s) × IsIdentifier r)
new_repository_identifier-eq-ok_iff s r =
    ((λ h. (parsed-full_name s r h, parsed-IsIdentifier s r h)), λ (e, v). rw (← e) (printed r v))

-- On identifiers that were parsed, the full name determines the identifier.
full_name_injective :
    (r q : RepositoryIdentifier)
    → IsIdentifier r
    → IsIdentifier q
    → full_name r ≡ full_name q
    → r ≡ q
full_name_injective r q v w e = cc (printed r v, printed q w, ap new_repository_identifier e)

-- `Equals` compares the owner and the name.
pub equals_iff : (r q : RepositoryIdentifier) → (equals (some r) (some q) ≡ true) ↔ (r ≡ q)
unfolding equals
equals_iff r q = ground (arith, text_eq_iff r.owner q.owner, text_eq_iff r.name q.name)

-- The two ways to make an allowed repository agree.
pub new_allowed_repository-eq :
    (owner repo : Text)
    → owner ≢ []
    → repo ≢ []
    → new_allowed_repository owner repo ≡ new_allowed_repository_from_string (owner ++ b'/' ∷ repo)
unfolding new_allowed_repository new_allowed_repository_from_string
new_allowed_repository-eq owner repo h k = ground (arith, text_eq_iff owner [], text_eq_iff repo [])

pub new_allowed_repository_from_string-name :
    (s : Text) (a : AllowedRepository)
    → new_allowed_repository_from_string s ≡ ok a
    → full_name a.identifier ≡ s
unfolding new_allowed_repository_from_string allowed_of
new_allowed_repository_from_string-name s a h = go (new_repository_identifier s) refl h
  where
    go :
        (r : Result RepositoryIdentifier)
        → new_repository_identifier s ≡ r
        → allowed_of r ≡ ok a
        → full_name a.identifier ≡ s
    go (ok i) e h =
        ap (λ (b : AllowedRepository). full_name b.identifier) (sym (ok_inj h))
        ∙ ((new_repository_identifier-eq-ok_iff s i).0 e).0
    go (err x) e h = cc h
