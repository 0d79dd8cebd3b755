-- ===== src/Records/History.antt =====
-- Whole histories: a record at version n with the revisions 2, ..., n, one of each, in order.
use mathlib.Core.List.{map-append, append-nil}
use mathlib.Core.Path.{subst}
use marriage_be.Prelude.{
  ℕ, zero, suc, ◌+◌, ◌≤◌, ◌<◌, Bool, false, ◌||◌, some, List, [], ◌∷◌, ◌++◌, ◌==◌, ◌≡◌, ◌≢◌, refl,
  sym, ◌∙◌, ap, nat_eq, string_eq, select, any, arith, map, select-append, Bool-cases, inl, inr,
  some_inj,
}
use marriage_be.Db.Rows.{OcrRecord, Revision, Db}
use marriage_be.Db.Table.Laws.{find-update_self, find-update_ne, find-key}
use marriage_be.Db.Result.{ok}
use marriage_be.Records.Repository.{record_key, get_record, append_revision, is_revision_of, taken}
use marriage_be.Records.Service.{store_record}

-- 2, ..., n
abbrev upto : ℕ → List ℕ
upto zero = []
upto (suc zero) = []
upto (suc (suc n)) = upto (suc n) ++ suc (suc n) ∷ []

abbrev pub history : Db → ℕ → List ℕ
history db id = map (λ (v : Revision). v.version) (select (is_revision_of id) db.revisions)

pub record HasHistory (db : Db) (r : OcrRecord) : Type 0 where
  pub versioned : 1 ≤ r.version
  pub complete : history db r.id ≡ upto r.version

-- Every stored record has its whole history.
abbrev pub IsAudited : Db → Type 0
IsAudited db = (k : ℕ) (r : OcrRecord) → get_record db k ≡ some r → HasHistory db r

any_append {ℓ} :
    {A : Type ℓ} (p : A → Bool) (xs ys : List A) → any p (xs ++ ys) ≡ (any p xs || any p ys)
unfolding any
any_append p [] ys = refl
any_append p (x ∷ xs) ys = ground (arith, any_append p xs ys)

upto-bound : (n m : ℕ) → n < m → any (λ v. v == m) (upto n) ≡ false
unfolding any
upto-bound zero m h = refl
upto-bound (suc zero) m h = refl
upto-bound (suc (suc n)) m h =
    ground (
      arith,
      any_append (λ (v : ℕ). v == m) (upto (suc n)) (suc (suc n) ∷ []),
      upto-bound (suc n) m,
    )

taken-history :
    (id m : ℕ) (vs : List Revision)
    → taken id m vs
      ≡ any (λ v. v == m) (map (λ (v : Revision). v.version) (select (is_revision_of id) vs))
unfolding taken any select is_revision_of
taken-history id m [] = refl
taken-history id m (v ∷ vs) = ground (arith, taken-history id m vs)

-- The next version is free.
next_free :
    (db : Db) (r : OcrRecord) → HasHistory db r → taken r.id (r.version + 1) db.revisions ≡ false
next_free db r h =
    taken-history r.id (r.version + 1) db.revisions
    ∙ (ap (any (λ v. v == r.version + 1)) h.complete
        ∙ upto-bound r.version (r.version + 1) (omega arith))

upto_next : (n : ℕ) → 1 ≤ n → upto (n + 1) ≡ upto n ++ (n + 1) ∷ []
upto_next zero h = absurd (omega arith)
upto_next (suc n) h = let e : suc n + 1 ≡ suc (suc n) = omega arith in rw e refl

-- the database with one more revision
abbrev pub with_revision : Revision → Db → Db
with_revision v db = record db { revisions = db.revisions ++ v ∷ [] }

pub append_revision_next :
    (db : Db) (r : OcrRecord) (v : Revision)
    → HasHistory db r
    → v.record_id ≡ r.id
    → v.version ≡ r.version + 1
    → append_revision v db ≡ ok (with_revision v db)
unfolding append_revision
append_revision_next db r v h same next = ground (
  arith,
  next_free db r h,
  ap (λ (i : ℕ). taken i v.version db.revisions) same,
  ap (λ (n : ℕ). taken r.id n db.revisions) next,
)

history-append :
    (db : Db) (v : Revision) (k : ℕ)
    → history (with_revision v db) k
      ≡ history db k ++ map (λ (x : Revision). x.version) (select (is_revision_of k) (v ∷ []))
history-append db v k =
    ap (map (λ (x : Revision). x.version)) (select-append (is_revision_of k) db.revisions (v ∷ []))
    ∙ map-append (λ (x : Revision). x.version) (select (is_revision_of k) db.revisions)
        (select (is_revision_of k) (v ∷ []))

chosen_self : (v : Revision) (k : ℕ) → v.record_id ≡ k → select (is_revision_of k) (v ∷ []) ≡ v ∷ []
unfolding select is_revision_of
chosen_self v k e = ground arith

chosen_ne : (v : Revision) (k : ℕ) → v.record_id ≢ k → select (is_revision_of k) (v ∷ []) ≡ []
unfolding select is_revision_of
chosen_ne v k e = ground arith

history-append_self :
    (db : Db) (v : Revision) (k : ℕ)
    → v.record_id ≡ k
    → history (with_revision v db) k ≡ history db k ++ v.version ∷ []
history-append_self db v k e =
    history-append db v k
    ∙ ap (λ (l : List Revision). history db k ++ map (λ x. x.version) l) (chosen_self v k e)

history-append_ne :
    (db : Db) (v : Revision) (k : ℕ)
    → v.record_id ≢ k
    → history (with_revision v db) k ≡ history db k
history-append_ne db v k e =
    history-append db v k
    ∙ (ap (λ (l : List Revision). history db k ++ map (λ x. x.version) l) (chosen_ne v k e)
        ∙ append-nil (history db k))

-- A change of a record that counts its version up and appends the revision of that version.
module _ (db : Db) (id : ℕ) (r : OcrRecord) (v : Revision) (f : OcrRecord → OcrRecord)
    (audited : IsAudited db) (stored : get_record db id ≡ some r) (about : v.record_id ≡ r.id)
    (next : v.version ≡ r.version + 1) (keeps : (x : OcrRecord) → (f x).id ≡ x.id)
    (counts : (x : OcrRecord) → (f x).version ≡ x.version + 1) where
  unfoldable pub revised : Db
  revised = (store_record id f r (with_revision v db)).1

  changed-HasHistory : HasHistory revised (f r)
  unfolding revised store_record
  changed-HasHistory = record {
    versioned = omega (arith, counts r);
    complete =
        rw (keeps r, counts r)
          (history-append_self db v r.id about
            ∙ (rw ((audited id r stored).complete, next)
                (sym (upto_next r.version (audited id r stored).versioned))));
  }

  id_of_stored : (k : ℕ) (x : OcrRecord) → get_record db k ≡ some x → x.id ≡ k
  unfolding get_record
  id_of_stored k x h = find-key record_key k db.records x h

  pub get_record-revised_self : get_record revised id ≡ some (f r)
  unfolding get_record revised store_record
  get_record-revised_self =
      ground (arith, stored, find-update_self record_key f keeps id db.records)

  pub get_record-revised_ne : (k : ℕ) → (id == k) ≡ false → get_record revised k ≡ get_record db k
  unfolding get_record revised store_record
  get_record-revised_ne k ne = find-update_ne record_key f keeps id k db.records ne

  other-HasHistory :
      (k : ℕ) (x : OcrRecord) → (id == k) ≡ false → get_record db k ≡ some x → HasHistory revised x
  unfolding revised store_record
  other-HasHistory k x ne h = record {
    versioned = (audited k x h).versioned;
    complete =
        history-append_ne db v x.id
          (λ e. ground (arith, id_of_stored k x h, id_of_stored id r stored))
        ∙ (audited k x h).complete;
  }

  pub revised-IsAudited : IsAudited revised
  revised-IsAudited k x h = elim (Bool-cases (id == k)) [
    | inl same ↦
        subst (HasHistory revised)
          (some_inj (
            sym get_record-revised_self
            ∙ (ap (get_record revised) ((nat_eq.equal_iff id k).0 same) ∙ h)))
          changed-HasHistory
    | inr other ↦ other-HasHistory k x other (sym (get_record-revised_ne k other) ∙ h)
  ]
