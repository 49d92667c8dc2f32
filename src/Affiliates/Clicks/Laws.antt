-- ===== src/Affiliates/Clicks/Laws.antt =====
-- Whose link wins.
use text.Mathlib.Text.{◌==◌ as str_eq}
use text.Mathlib.TextEquality.{eq_iff}
use ucom_backend.Prelude.{
  ℕ, String, ◌≡◌, inl, inr, refl, sym, ap, ◌∙◌, Bool, true, false, Option, none, some, List, [],
  ◌∷◌, ◌==◌, find, any, select, arith, Bool-cases, ==_self, Option-cases,
}
use ucom_backend.Prelude.Int.{pos}
use ucom_backend.Prelude.Action.{Result, ok, err}
use ucom_backend.Affiliates.State.{
  Offer, Stream, Click, Affiliates, last_wins, unprocessable_entity_error,
}
use ucom_backend.Affiliates.Clicks.{
  redirect, attribute, get_account_name_by_attribution_model, oldest, is_click_of, insert_click,
  account_of, Attribution,
}

-- The primary key.
abbrev pub UniqueIds : List Stream → Type 0
UniqueIds [] = Unit
UniqueIds (s ∷ ss) = (any (λ t. t.id == s.id) ss ≡ false) × UniqueIds ss

find-any :
    (p q : Stream → Bool) (streams : List Stream) (s : Stream)
    → find p streams ≡ some s
    → q s ≡ true
    → any q streams ≡ true
find-any p q [] s h k = cc
find-any p q (t ∷ ts) s h k = elim (Bool-cases (p t)) [
  | inl e ↦ let same : t ≡ s = ground arith in rw (same, k) refl
  | inr e ↦ let ih = find-any p q ts s (rw e at h) k in ground arith
]

pub find_by_id :
    (p : Stream → Bool) (streams : List Stream) (s : Stream)
    → UniqueIds streams
    → find p streams ≡ some s
    → find (λ t. t.id == s.id) streams ≡ some s
find_by_id p [] s u h = cc
find_by_id p (t ∷ ts) s (fresh, u) h = elim (Bool-cases (p t)) [
  | inl e ↦ let same : t ≡ s = ground arith in rw (same, ==_self s.id) refl
  | inr e ↦
      let h' = rw e at h in
      elim (Bool-cases (t.id == s.id)) [
        | inl f ↦ cc (find-any p (λ x. x.id == t.id) ts s h' (ground arith), fresh)
        | inr f ↦ rw f (find_by_id p ts s u h')
      ]
]

-- What a redirect did that succeeded.
redirect_lem :
    (unique_id hash identity : String) (a a' : Affiliates) (s : Stream)
    → redirect unique_id hash identity a ≡ (ok s, a')
    → (find (λ t. str_eq t.account_name identity) a.streams ≡ some s)
      × (a' ≡ insert_click s unique_id a)
unfolding redirect
redirect_lem unique_id hash identity a a' s h = ground arith

-- The winner after a click, where the last one wins and where the first one does.
last_wins_lem :
    (offer : Offer) (unique_id : String) (a : Affiliates) (s : Stream)
    → find (λ t. t.id == s.id) a.streams ≡ some s
    → s.offer_id ≡ offer.id
    → (offer.attribution_id == last_wins) ≡ true
    → get_account_name_by_attribution_model offer unique_id (insert_click s unique_id a)
      ≡ some s.account_name
unfolding get_account_name_by_attribution_model
last_wins_lem offer unique_id a s found own last =
    rw (own, ==_self offer.id, (eq_iff unique_id unique_id).1 refl, last)
      (rw (found, account_of) refl)

account_of-oldest :
    (streams : List Stream) (c : Click) (cs : List Click) (w : String)
    → account_of streams (oldest cs) ≡ some w
    → account_of streams (oldest (c ∷ cs)) ≡ some w
account_of-oldest streams c [] w h = cc
account_of-oldest streams c (d ∷ ds) w h = h

first_wins_lem :
    (offer : Offer) (unique_id : String) (a : Affiliates) (s : Stream) (w : String)
    → s.offer_id ≡ offer.id
    → (offer.attribution_id == last_wins) ≡ false
    → get_account_name_by_attribution_model offer unique_id a ≡ some w
    → get_account_name_by_attribution_model offer unique_id (insert_click s unique_id a) ≡ some w
unfolding get_account_name_by_attribution_model
first_wins_lem offer unique_id a s w own first h =
    rw (own, ==_self offer.id, (eq_iff unique_id unique_id).1 refl, first)
      (account_of-oldest a.streams _ (select (is_click_of offer unique_id) a.clicks) w
        (rw first at h))

module _ (registration : ℕ) (extract : String → Option String) where
  abbrev answer : Offer → Option String → Result Attribution
  answer offer none = err unprocessable_entity_error
  answer offer (some n) = ok (record { offer_id = offer.id; account_name_source = n })

  attribute_lem :
      (token unique_id : String) (offer : Offer) (a : Affiliates)
      → extract token ≡ some unique_id
      → (registration == 0) ≡ false
      → select (λ o. o.event_id == registration) a.offers ≡ offer ∷ []
      → (attribute registration extract (some token) (some (pos registration)) a).0
        ≡ answer offer (get_account_name_by_attribution_model offer unique_id a)
  unfolding attribute
  attribute_lem token unique_id offer a ext reg only =
      elim (Option-cases (get_account_name_by_attribution_model offer unique_id a)) [
        | inl e ↦ rw (reg, ==_self registration, ext, only, e) refl
        | inr (n, e) ↦ rw (reg, ==_self registration, ext, only, e) refl
      ]

  answer_name :
      (offer : Offer) (o : Option String) (w : Attribution)
      → answer offer o ≡ ok w
      → (n : String) × (o ≡ some n)
        × (ok (record { offer_id = offer.id; account_name_source = n }) ≡ ok w)
  answer_name offer none w h = cc
  answer_name offer (some n) w h = (n, refl, h)

  -- Where the last link wins, a visitor who was redirected by a link is then attributed to the
  -- owner of that link, whatever links the visitor had followed before. Where the first one wins,
  -- a visitor who was attributed to somebody stays so after following another link. The offer is
  -- the only one for registrations, the link is one of that offer, and the token names the visitor.
  pub redirect_then_attribute :
      (token unique_id hash identity : String) (offer : Offer) (a a' : Affiliates) (s : Stream)
      → extract token ≡ some unique_id
      → (registration == 0) ≡ false
      → select (λ o. o.event_id == registration) a.offers ≡ offer ∷ []
      → UniqueIds a.streams
      → redirect unique_id hash identity a ≡ (ok s, a')
      → s.offer_id ≡ offer.id
      → ((offer.attribution_id == last_wins) ≡ true
          → (attribute registration extract (some token) (some (pos registration)) a').0
            ≡ ok (record { offer_id = offer.id; account_name_source = s.account_name }))
        × ((offer.attribution_id == last_wins) ≡ false
            → (w : Attribution)
            → (attribute registration extract (some token) (some (pos registration)) a).0 ≡ ok w
            → (attribute registration extract (some token) (some (pos registration)) a').0 ≡ ok w)
  redirect_then_attribute token unique_id hash identity offer a a' s ext reg only u red own =
      let (by_name, e) = redirect_lem unique_id hash identity a a' s red in
      let by_id = find_by_id _ a.streams s u by_name in
      let after = attribute_lem token unique_id offer (insert_click s unique_id a) ext reg only in
      rw e (
        (λ last. after ∙ ap (answer offer) (last_wins_lem offer unique_id a s by_id own last)),
        (λ first w h.
            let before = attribute_lem token unique_id offer a ext reg only in
            let (n, f, g) = answer_name offer _ w (sym before ∙ h) in
            after ∙ ap (answer offer) (first_wins_lem offer unique_id a s n own first f) ∙ g),
      )
