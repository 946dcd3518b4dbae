-- ===== src/RunLog/Check/Tamper.antt =====
-- skills/loop-task-implementer/scripts/run_log.py, `_full_check`: the head of a log commits to every
-- record of it.
use mathlib.Core.List.Memᴰ
use mathlib.Core.List.{Memᴰ}
use software_builder.Prelude.{
  ℕ, suc, String, ◌≡◌, refl, sym, ap, ◌∙◌, ◌≢◌, ◌⊎◌, inl, inr, Bool, true, false, Option, none,
  some, List, [], ◌∷◌, subst,
}
use software_builder.RunLog.{Body, Record, is_completed}
use software_builder.RunLog.Check.{Raw, zero_hash, full_check}
use software_builder.RunLog.Check.Accepts.{full_check-Whole, full_check-head}
use software_builder.RunLog.Check.Chain.{Chained, last_hash}

-- The list, backwards, in front of another.
reverse_onto : List Record → List Record → List Record
reverse_onto [] acc = acc
reverse_onto (r ∷ rs) acc = reverse_onto rs (r ∷ acc)

reverse_onto-mem :
    (r : Record) (rs acc : List Record) → Memᴰ r (reverse_onto rs acc) → Memᴰ r rs ⊎ Memᴰ r acc
unfolding reverse_onto
reverse_onto-mem r [] acc m = inr m
reverse_onto-mem r (s ∷ rs) acc m = elim (reverse_onto-mem r rs (s ∷ acc) m) [
  | inl here ↦ inl (Memᴰ.tail here)
  | inr there ↦ elim (Memᴰ.cases_cons there) [ inl e ↦ inl (Memᴰ.head e) | inr later ↦ inr later ]
]

reverse_onto-twice :
    (rs acc : List Record) → reverse_onto (reverse_onto rs acc) [] ≡ reverse_onto acc rs
unfolding reverse_onto
reverse_onto-twice [] acc = refl
reverse_onto-twice (r ∷ rs) acc = reverse_onto-twice rs (r ∷ acc)

reverse_onto-inj : (rs ss : List Record) → reverse_onto rs [] ≡ reverse_onto ss [] → rs ≡ ss
unfolding reverse_onto
reverse_onto-inj rs ss e =
    sym (reverse_onto-twice rs []) ∙ ap (λ l. reverse_onto l []) e ∙ reverse_onto-twice ss []

forwards : (r : Record) (rs : List Record) → Memᴰ r (reverse_onto rs []) → Memᴰ r rs
forwards r rs m = elim (reverse_onto-mem r rs [] m) [
  | inl here ↦ here
  | inr none_left ↦ absurd (Memᴰ.not-nil none_left)
]

module _ (record_hash : Body → String) where
  -- The records, the newest first, that lead from the zero hash to `head`.
  abbrev Linked : String → List Record → Type 0
  Linked head [] = head ≡ zero_hash
  Linked head (r ∷ rs) = (r.hash ≡ head) × (r.hash ≡ record_hash r.body) × Linked r.prev_hash rs

  Chained-Linked :
      (limit index : ℕ) (head : String) (prev_ts : Option ℕ) (completed : Bool)
      (rs acc : List Record)
      → Chained record_hash limit index head prev_ts completed rs
      → Linked head acc
      → Linked (last_hash record_hash limit head rs) (reverse_onto rs acc)
  unfolding reverse_onto
  Chained-Linked limit index head prev_ts completed [] acc chained linked = linked
  Chained-Linked limit index head prev_ts completed (r ∷ rs) acc (fits, chained) linked =
      Chained-Linked limit (suc index) r.hash (some r.ts) (is_completed r.event) rs (r ∷ acc)
        chained (refl, fits.sealed, subst (λ h. Linked h acc) (sym fits.linked) linked)

  -- No two of the records have one hash and different contents, and none has the zero hash.
  pub record Distinct (rs ss : List Record) : Type 0 where
    pub same_body :
        (r s : Record)
        → Memᴰ r rs
        → Memᴰ s ss
        → record_hash r.body ≡ record_hash s.body
        → r.body ≡ s.body
    pub not_zero : (r : Record) → (Memᴰ r rs ⊎ Memᴰ r ss) → record_hash r.body ≢ zero_hash

  Linked-unique :
      (head : String) (rs ss : List Record)
      → Distinct rs ss
      → Linked head rs
      → Linked head ss
      → rs ≡ ss
  Linked-unique head [] [] d l m = refl
  Linked-unique head [] (s ∷ ss) d l (e, h, m) =
      absurd (d.not_zero s (inr (Memᴰ.head refl)) (sym h ∙ e ∙ l))
  Linked-unique head (r ∷ rs) [] d (e, h, l) m =
      absurd (d.not_zero r (inl (Memᴰ.head refl)) (sym h ∙ e ∙ m))
  Linked-unique head (r ∷ rs) (s ∷ ss) d (e, h, l) (e', h', m) =
      let same_hash = e ∙ sym e' in
      let same_body = d.same_body r s (Memᴰ.head refl) (Memᴰ.head refl) (sym h ∙ same_hash ∙ h') in
      let further : Distinct rs ss = record {
        same_body = λ q t i j. d.same_body q t (Memᴰ.tail i) (Memᴰ.tail j);
        not_zero =
            λ q i. d.not_zero q (elim i [ inl j ↦ inl (Memᴰ.tail j) | inr j ↦ inr (Memᴰ.tail j) ]);
      } in
      let same_rest =
        Linked-unique r.prev_hash rs ss further l
          (subst (λ b. Linked b.prev_hash ss) (sym same_body) m) in
      let same_record : r ≡ s = cc (same_hash, same_body) in cc (same_record, same_rest)

  -- Two logs that `_full_check` accepts, and that have the same head, hold the same records, unless
  -- the hash takes two of their records with different contents to one value, or a record to the
  -- zero hash.
  pub full_check-commits :
      (limit : ℕ) (a b : Raw)
      → (full_check record_hash limit a).ok ≡ true
      → (full_check record_hash limit b).ok ≡ true
      → Distinct (full_check record_hash limit a).records (full_check record_hash limit b).records
      → (full_check record_hash limit a).head ≡ (full_check record_hash limit b).head
      → (full_check record_hash limit a).records ≡ (full_check record_hash limit b).records
  full_check-commits limit a b a_ok b_ok d same_head =
      let rs = (full_check record_hash limit a).records in
      let ss = (full_check record_hash limit b).records in
      let linked = λ (raw : Raw) (ok : (full_check record_hash limit raw).ok ≡ true).
        Chained-Linked limit 1 zero_hash none false (full_check record_hash limit raw).records []
          (full_check-Whole record_hash limit raw ok).chained refl in
      let backwards : Distinct (reverse_onto rs []) (reverse_onto ss []) = record {
        same_body = λ r s i j. d.same_body r s (forwards r rs i) (forwards s ss j);
        not_zero = λ r i.
            d.not_zero r (elim i [ inl j ↦ inl (forwards r rs j) | inr j ↦ inr (forwards r ss j) ]);
      } in
      reverse_onto-inj rs ss (
        Linked-unique (full_check record_hash limit a).head (reverse_onto rs [])
          (reverse_onto ss []) backwards
          (subst (λ h. Linked h (reverse_onto rs []))
            (sym (full_check-head record_hash limit a a_ok)) (linked a a_ok))
          (subst (λ h. Linked h (reverse_onto ss []))
            (sym (same_head ∙ full_check-head record_hash limit b b_ok)) (linked b b_ok)))
