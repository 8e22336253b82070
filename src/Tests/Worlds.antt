-- ===== src/Tests/Worlds.antt =====
-- Worlds with one registered object.
use mathlib.Core.Path.{subst}
use cargohold.Domain.Object.{LfsObject}
use cargohold.Domain.Object.Laws.{IsObject}
use cargohold.Prelude.{ap, inl, inr, none, refl, some_inj, sym, ◌∙◌, ◌≡◌}
use cargohold.Prelude.Text.{codes}
use cargohold.Tests.DomainTests.{uploaded_object-IsObject, waiting_object-IsObject}
use cargohold.Tests.Samples.{digits, our_policy, uploaded_object, waiting_object}
use cargohold.Tests.World.{Inv, World, set}
use cargohold.Tests.WorldLaws.{set-IsWritten}

-- One registered object of one repository, and its content.
abbrev pub world_of : LfsObject → World
world_of x = record {
  objects = set digits x (λ _. none);
  policies = set digits our_policy (λ _. none);
  cached = λ _. none;
  blobs = set (codes "key") (codes "hello") (λ _. none);
}

pub world_of-Inv : (x : LfsObject) → IsObject x → x.oid.value ≡ digits → Inv (world_of x)
world_of-Inv x good at k y h = elim (set-IsWritten digits k x (λ _. none)) [
  | inl e ↦ cc (sym e ∙ h)
  | inr (here, e) ↦
      let same = some_inj (sym e ∙ h) in
      (subst IsObject same good, ap (λ (z : LfsObject). z.oid.value) (sym same) ∙ (at ∙ here))
]

pub waiting_world-Inv : Inv (world_of waiting_object)
waiting_world-Inv = world_of-Inv waiting_object waiting_object-IsObject refl

pub uploaded_world-Inv : Inv (world_of uploaded_object)
uploaded_world-Inv = world_of-Inv uploaded_object uploaded_object-IsObject refl
