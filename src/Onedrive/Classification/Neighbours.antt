-- ===== src/Onedrive/Classification/Neighbours.antt =====
-- onedrive/service.py, _apply_neighbor_fallback: the fallback, which changes its list in place,
-- beside a description that looks at the classifier's answers.
use mathlib.Core.Path.{subst, ap₂}
use marriage_be.Prelude.{
  String, true, false, ◌&&◌, Option, none, some, List, [], ◌∷◌, ◌==◌, ◌≡◌, refl, sym, ap, ◌∙◌,
  arith, some_inj, string_eq, eq_iff, Bool-cases, inl, inr,
}
use marriage_be.Onedrive.Classification.{
  Classification, Classified, File, nearest, is_unplaced, same_key, inherited, between,
  fall_back_from, apply_neighbor_fallback,
}

-- Every file by the classifier's answers for its neighbours, whatever became of these.
unfoldable pub at_once : (done todo : List Classified) → List Classified
unfolding nearest between
at_once done [] = []
at_once done ((file, c) ∷ todo) =
    (file, between (nearest done) (nearest todo) c) ∷ at_once ((file, c) ∷ done) todo

-- a routable file hands on all of its classification
inherited_lem : (b : Classification) → (b.status == "ROUTABLE") ≡ true → inherited b ≡ b
unfolding inherited
inherited_lem b h =
    ap (λ (s : String). record b { status = s }) (sym ((eq_iff b.status "ROUTABLE").0 h))

nearest_holds :
    (files : List Classified) {b : Classification}
    → nearest files ≡ some b
    → (b.status == "ROUTABLE") ≡ true
unfolding nearest
nearest_holds [] h = cc
nearest_holds ((file, c) ∷ files) h = elim (Bool-cases (c.status == "ROUTABLE")) [
  | inl holds ↦
      subst (λ (x : Classification). (x.status == "ROUTABLE") ≡ true) (some_inj (rw holds at h))
        holds
  | inr fails ↦ nearest_holds files (rw fails at h)
]

unplaced_not_routable :
    (c : Classification) → is_unplaced c ≡ true → (c.status == "ROUTABLE") ≡ false
unplaced_not_routable c h =
    let manual : c.status ≡ "NEEDS_MANUAL_CLASSIFICATION" =
      ground (arith, eq_iff c.status "NEEDS_MANUAL_CLASSIFICATION") in
    rw manual refl

-- What a file shows to those after it is what its own answer would.
same_nearest :
    (file : File) (c : Classification) (done : List Classified)
    (before after : Option Classification)
    → nearest done ≡ before
    → nearest ((file, between before after c) ∷ done) ≡ nearest ((file, c) ∷ done)
unfolding nearest between
same_nearest file c done none after h = refl
same_nearest file c done (some b) none h = refl
same_nearest file c done (some b) (some a) h = elim (Bool-cases (is_unplaced c && same_key b a)) [
  | inl holds ↦
      let unplaced : is_unplaced c ≡ true = ground arith in
      rw (holds, inherited_lem b (nearest_holds done h), unplaced_not_routable c unplaced) (sym h)
  | inr fails ↦ rw fails refl
]

nearest-next :
    (file : File) (c : Classification) (done done' : List Classified)
    → nearest done' ≡ nearest done
    → nearest ((file, c) ∷ done') ≡ nearest ((file, c) ∷ done)
unfolding nearest
nearest-next file c done done' h = rw h refl

from-at_once :
    (done done' todo : List Classified)
    → nearest done' ≡ nearest done
    → fall_back_from done' todo ≡ at_once done todo
unfolding fall_back_from at_once
from-at_once done done' [] h = refl
from-at_once done done' ((file, c) ∷ todo) h =
    ap₂ (λ (x : Classified) (xs : List Classified). x ∷ xs)
      (ap (λ (b : Option Classification). (file, between b (nearest todo) c)) h)
      (from-at_once ((file, c) ∷ done) ((file, between (nearest done') (nearest todo) c) ∷ done')
        todo
        (same_nearest file c done' (nearest done') (nearest todo) refl
          ∙ nearest-next file c done done' h))

-- The fallback, which updates the list that it reads, gives every file exactly what it would get
-- from the classifier's own answers: it takes over the classification of the nearest routable file
-- on each side, if it was unplaced and these two agree, and otherwise keeps its own.
pub apply_neighbor_fallback-at_once :
    (classified : List Classified) → apply_neighbor_fallback classified ≡ at_once [] classified
unfolding apply_neighbor_fallback
apply_neighbor_fallback-at_once classified = from-at_once [] [] classified refl
