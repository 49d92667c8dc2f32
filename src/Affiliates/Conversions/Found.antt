-- ===== src/Affiliates/Conversions/Found.antt =====
-- Which conversions are found after one of them has got another status.
use mathlib.Core.Path.{subst}
use ucom_backend.Prelude.{
  ℕ, ◌≡◌, ◌⊎◌, inl, inr, refl, sym, ap, ◌∙◌, Bool, true, false, ◌&&◌, ◌||◌, List, [], ◌∷◌, ◌==◌,
  if◌then◌else◌, find, any, arith, Bool-cases, Option-cases,
}
use ucom_backend.Affiliates.State.{Stream, Conversion, status_new}
use ucom_backend.Affiliates.Conversions.{
  ConversionDto, dto_of, is_to_process, find_sent_to_blockchain_to_process, set_status,
}

-- The conversion is new.
abbrev pub is_new : ℕ → List Conversion → Bool
is_new id cs = any (λ c. c.id == id && c.status == status_new) cs

-- The primary key.
abbrev pub UniqueIds : List Conversion → Type 0
UniqueIds [] = Unit
UniqueIds (c ∷ cs) = (any (λ t. t.id == c.id) cs ≡ false) × UniqueIds cs

any-set_status :
    (status id k : ℕ) (cs : List Conversion)
    → any (λ t. t.id == k) (set_status status id cs) ≡ any (λ t. t.id == k) cs
any-set_status status id k [] = refl
any-set_status status id k (c ∷ cs) = elim (Bool-cases (c.id == id)) [
  | inl e ↦ rw e (ap (λ b. c.id == k || b) (any-set_status status id k cs))
  | inr e ↦ rw e (ap (λ b. c.id == k || b) (any-set_status status id k cs))
]

pub set_status-UniqueIds :
    (status id : ℕ) (cs : List Conversion) → UniqueIds cs → UniqueIds (set_status status id cs)
set_status-UniqueIds status id [] u = tt
set_status-UniqueIds status id (c ∷ cs) (fresh, u) = elim (Bool-cases (c.id == id)) [
  | inl e ↦ rw e (any-set_status status id c.id cs ∙ fresh, set_status-UniqueIds status id cs u)
  | inr e ↦ rw e (any-set_status status id c.id cs ∙ fresh, set_status-UniqueIds status id cs u)
]

module _ (status : ℕ) (settles : (status == status_new) ≡ false) where
  -- What is not new stays so.
  pub set_status_settled :
      (id k : ℕ) (cs : List Conversion)
      → is_new k cs ≡ false
      → is_new k (set_status status id cs) ≡ false
  set_status_settled id k [] h = refl
  set_status_settled id k (c ∷ cs) h =
      let ih = set_status_settled id k cs (ground arith) in ground arith

  pub set_status_settles :
      (id : ℕ) (cs : List Conversion) → is_new id (set_status status id cs) ≡ false
  set_status_settles id [] = refl
  set_status_settles id (c ∷ cs) = let ih = set_status_settles id cs in ground arith

  module _ (is_sent : ℕ → Bool) (streams : List Stream) where
    abbrev pub found : List Conversion → List ConversionDto
    found cs = find_sent_to_blockchain_to_process is_sent streams cs

    unchanged :
        (id : ℕ) (cs : List Conversion)
        → any (λ t. t.id == id) cs ≡ false
        → set_status status id cs ≡ cs
    unchanged id [] h = refl
    unchanged id (c ∷ cs) h = elim (Bool-cases (c.id == id)) [
      | inl e ↦ cc (rw e at h)
      | inr e ↦ rw e (ap (λ t. c ∷ t) (unchanged id cs (ground arith)))
    ]

    -- What one conversion adds.
    abbrev adds : Conversion → List ConversionDto → List ConversionDto
    adds c rest =
        if is_to_process is_sent c
        then dto_of c (find (λ s. s.id == c.stream_id) streams) rest
        else rest

    adds_cases :
        (c : Conversion)
        → ((rest : List ConversionDto) → adds c rest ≡ rest)
          ⊎ ((d : ConversionDto) × (d.conversion_id ≡ c.id)
              × ((c.status == status_new) ≡ true)
              × ((rest : List ConversionDto) → adds c rest ≡ d ∷ rest))
    adds_cases c = elim (Bool-cases (is_to_process is_sent c)) [
      | inl e ↦ elim (Option-cases (find (λ s. s.id == c.stream_id) streams)) [
        | inl f ↦ inl (λ rest. rw (e, f) refl)
        | inr (s, f) ↦ inr (
          record { conversion_id = c.id; referral_user_id = c.user_id; source_user_id = s.user_id },
          refl,
          ground arith,
          (λ rest. rw (e, f) refl),
        )
      ]
      | inr e ↦ inl (λ rest. rw e refl)
    ]

    adds_settled :
        (c : Conversion) (rest : List ConversionDto)
        → adds (record c { status = status }) rest ≡ rest
    adds_settled c rest =
        let e : is_to_process is_sent (record c { status = status }) ≡ false = ground arith in
        rw e refl

    -- The first conversion found is new, and is not found again with another status.
    pub found_rest :
        (cs : List Conversion) (d : ConversionDto) (ds : List ConversionDto)
        → UniqueIds cs
        → found cs ≡ d ∷ ds
        → (found (set_status status d.conversion_id cs) ≡ ds) × (is_new d.conversion_id cs ≡ true)
    unfolding find_sent_to_blockchain_to_process
    found_rest [] d ds u h = cc
    found_rest (c ∷ cs) d ds (fresh, u) h = elim (adds_cases c) [
      | inl none_added ↦
          let (ih, n) = found_rest cs d ds u (sym (none_added (found cs)) ∙ h) in
          elim (Bool-cases (c.id == d.conversion_id)) [
            | inl e ↦ (rw e (adds_settled c _ ∙ ih), ground arith)
            | inr e ↦ (rw e (none_added _ ∙ ih), ground arith)
          ]
      | inr (d', id, new, added) ↦
          let g = sym (added (found cs)) ∙ h in
          let same : d' ≡ d = ground arith in
          let rest : found cs ≡ ds = ground arith in
          let e : c.id ≡ d.conversion_id = ground arith in
          let hit : (c.id == d.conversion_id) ≡ true = ground arith in
          let fresh' = subst (λ k. any (λ t. t.id == k) cs ≡ false) e fresh in
          (
            rw hit (
                adds_settled c (found (set_status status d.conversion_id cs))
                ∙ ap found (unchanged d.conversion_id cs fresh')
                ∙ rest),
            rw (hit, new) refl,
          )
    ]
