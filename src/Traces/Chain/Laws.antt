-- ===== src/Traces/Chain/Laws.antt =====
-- The processors exclude one another: whether one refuses a trace rests on the names of its actions.
use text.Mathlib.Text.{◌==◌ as str_eq}
use text.Mathlib.TextEquality.{eq_iff}
use ucom_backend.Prelude.{
  ◌≤◌, String, ◌≡◌, ◌↔◌, ◌⊎◌, inl, inr, refl, sym, ◌∙◌, Bool, true, false, not, ◌&&◌, Option, some,
  List, [], ◌∷◌, leb, length, any, arith, Bool-cases,
}
use ucom_backend.Prelude.Int.{ℤ}
use ucom_backend.Traces.State.{
  Fields, Act, Trace, Row, Attempt, ok, unable, malformed, type_error, ◌>>=◌, bind-eq-ok,
}
use ucom_backend.Traces.Processor.{
  Schema, Expected, Found, TracesProcessor, is_expected, all_act_names_allowed, named, find_all,
  find_actions_data_by_rules, process_trace, validate_actions, TraceTypes,
}
use ucom_backend.Traces.Processors.{trace_processors}
use ucom_backend.Traces.Chain.{or_continue, process_chain}

-- A name that an action has is expected, where all names are allowed.
expected_of_named :
    (es : List Expected) (name : String) (acts : List Act)
    → all_act_names_allowed es acts ≡ true
    → 1 ≤ length (named name acts)
    → is_expected es name ≡ true
expected_of_named es name [] h n = absurd (omega arith)
expected_of_named es name (a ∷ acts) h n = elim (Bool-cases (str_eq a.name name)) [
  | inl e ↦ rw (← (eq_iff a.name name).0 e) (ground arith)
  | inr e ↦ expected_of_named es name acts (ground arith) (rw e at n)
]

-- The names that one processor expects are all expected by the other.
abbrev covered : List Expected → List Expected → Bool
covered [] fs = true
covered (e ∷ es) fs = is_expected fs e.act_name && covered es fs

abbrev needed : List Expected → Bool
needed [] = true
needed (e ∷ es) = leb 1 e.min_number_of_actions && needed es

abbrev exclusive : TracesProcessor → TracesProcessor → Bool
exclusive p q = not (
    covered p.expected_actions_data q.expected_actions_data
    && covered q.expected_actions_data p.expected_actions_data)

abbrev all_exclusive : List TracesProcessor → Bool
all_exclusive [] = true
all_exclusive (p ∷ ps) =
    needed p.expected_actions_data && not (any (λ q. not (exclusive p q)) ps) && all_exclusive ps

-- An answer that lets the chain go on.
abbrev pub Refuses {ℓ} : {A : Type ℓ} → Attempt A → Type 0
Refuses (ok a) = ⊥
Refuses unable = Unit
Refuses (malformed e) = Unit
Refuses (type_error e) = ⊥

Refuses-bind : {A B : Type 0} (m : Attempt A) (f : A → Attempt B) → Refuses m → Refuses (m >>= f)
Refuses-bind (ok a) f r = absurd r
Refuses-bind unable f r = tt
Refuses-bind (malformed e) f r = tt
Refuses-bind (type_error e) f r = absurd r

Attempt-cases :
    {A : Type 0} (m : Attempt A)
    → ((a : A) × (m ≡ ok a)) ⊎ (Refuses m ⊎ ((e : String) × (m ≡ type_error e)))
Attempt-cases (ok a) = inl (a, refl)
Attempt-cases unable = inr (inl tt)
Attempt-cases (malformed e) = inr (inl tt)
Attempt-cases (type_error e) = inr (inr (e, refl))

Refuses-continues :
    (m : Attempt Row) (rest : Attempt (Option Row)) → Refuses m → or_continue m rest ≡ rest
Refuses-continues (ok a) rest r = absurd r
Refuses-continues unable rest r = refl
Refuses-continues (malformed e) rest r = refl
Refuses-continues (type_error e) rest r = absurd r

module _ (joi : Schema → Fields → Bool) where
  validated_cases :
      (s : Schema) (acts : List Act)
      → Refuses (validate_actions joi s acts) ⊎ (validate_actions joi s acts ≡ ok tt)
  validated_cases s [] = inr refl
  validated_cases s (a ∷ acts) = elim (Bool-cases (joi s a.act_data)) [
    | inl e ↦ rw e (validated_cases s acts)
    | inr e ↦ rw e (inl tt)
  ]

  found_by_rules :
      (e : Expected) (t : Trace)
      → Refuses (find_actions_data_by_rules joi e t)
        ⊎ ((leb e.min_number_of_actions (length (named e.act_name t.actions)) ≡ true)
            × (find_actions_data_by_rules joi e t ≡ ok (named e.act_name t.actions)))
  unfolding find_actions_data_by_rules
  found_by_rules e t =
      let n = length (named e.act_name t.actions) in
      elim (Bool-cases (leb e.min_number_of_actions n)) [
        | inl low ↦ elim (Bool-cases (leb n e.max_number_of_actions)) [
          | inl high ↦ elim (validated_cases e.validation_schema (named e.act_name t.actions)) [
            | inl r ↦ inl (
                rw (low, high)
                  (Refuses-bind
                    (validate_actions joi e.validation_schema (named e.act_name t.actions))
                    (λ _. ok (named e.act_name t.actions)) r))
            | inr v ↦ inr (low, rw (low, high, v))
          ]
          | inr high ↦ inl (rw (low, high) tt)
        ]
        | inr low ↦ inl (rw low tt)
      ]

  -- The search for the expected actions refuses, or the other processor expects all their names.
  covered_of_found :
      (es fs : List Expected) (t : Trace)
      → needed es ≡ true
      → all_act_names_allowed fs t.actions ≡ true
      → Refuses (find_all joi es t)
        ⊎ ((covered es fs ≡ true) × (found : Found) × (find_all joi es t ≡ ok found))
  covered_of_found [] fs t h k = inr (refl, [], refl)
  covered_of_found (e ∷ es) fs t h k = elim (found_by_rules e t) [
    | inl r ↦ inl (Refuses-bind (find_actions_data_by_rules joi e t) _ r)
    | inr (low, f) ↦ elim (covered_of_found es fs t (ground arith) k) [
      | inl r ↦ inl (rw f (Refuses-bind (find_all joi es t) _ r))
      | inr (c, rest, g) ↦
          let x : is_expected fs e.act_name ≡ true =
            expected_of_named fs e.act_name t.actions k (ground arith) in
          inr (rw x c, (e.act_name, named e.act_name t.actions) ∷ rest, rw (f, g) refl)
    ]
  ]

  -- A processor that makes a row expects each name that an action has, and finds all it expects.
  accepted :
      (p : TracesProcessor) (t : Trace) (r : Row)
      → process_trace joi p t ≡ ok r
      → (all_act_names_allowed p.expected_actions_data t.actions ≡ true)
        × (found : Found) × (find_all joi p.expected_actions_data t ≡ ok found)
  unfolding process_trace
  accepted p t r h = elim (Bool-cases (all_act_names_allowed p.expected_actions_data t.actions)) [
    | inl a ↦
        let (found, f, rest) = bind-eq-ok (find_all joi p.expected_actions_data t) _ (rw a at h) in
        (a, found, f)
    | inr a ↦ cc (rw a at h)
  ]

  -- Where one makes a row, a processor that excludes it refuses.
  exclusive-Refuses :
      (p q : TracesProcessor) (t : Trace) (r : Row)
      → needed p.expected_actions_data ≡ true
      → needed q.expected_actions_data ≡ true
      → exclusive p q ≡ true
      → process_trace joi q t ≡ ok r
      → Refuses (process_trace joi p t)
  unfolding process_trace
  exclusive-Refuses p q t r np nq x h =
      let (aq, found, fq) = accepted q t r h in
      let ps = p.expected_actions_data in
      let qs = q.expected_actions_data in
      elim (Bool-cases (all_act_names_allowed ps t.actions)) [
        | inl ap ↦ elim (covered_of_found ps qs t np aq) [
          | inl refuses ↦ rw ap (Refuses-bind (find_all joi ps t) _ refuses)
          | inr (c, fp, e) ↦ elim (covered_of_found qs ps t nq ap) [
            | inl refuses ↦ absurd (rw fq at refuses)
            | inr (d, fq', e') ↦ cc (rw (c, d) at x)
          ]
        ]
        | inr ap ↦ rw ap tt
      ]

  -- Some processor makes the row.
  abbrev pub Recorded : List TracesProcessor → Trace → Row → Type 0
  Recorded [] t r = ⊥
  Recorded (p ∷ ps) t r = (process_trace joi p t ≡ ok r) ⊎ Recorded ps t r

  refused_before :
      (p : TracesProcessor) (ps : List TracesProcessor) (t : Trace) (r : Row)
      → needed p.expected_actions_data ≡ true
      → any (λ q. not (exclusive p q)) ps ≡ false
      → all_exclusive ps ≡ true
      → Recorded ps t r
      → Refuses (process_trace joi p t)
  refused_before p [] t r np x xs h = absurd h
  refused_before p (q ∷ qs) t r np x xs (inl h) =
      exclusive-Refuses p q t r np (ground arith) (ground arith) h
  refused_before p (q ∷ qs) t r np x xs (inr h) =
      refused_before p qs t r np (ground arith) (ground arith) h

  chain_of_Recorded :
      (ps : List TracesProcessor) (t : Trace) (r : Row)
      → all_exclusive ps ≡ true
      → Recorded ps t r
      → process_chain joi ps t ≡ ok (some r)
  unfolding process_chain
  chain_of_Recorded [] t r x h = absurd h
  chain_of_Recorded (p ∷ ps) t r x (inl h) = rw h
  chain_of_Recorded (p ∷ ps) t r x (inr h) =
      let refuses = refused_before p ps t r (ground arith) (ground arith) (ground arith) h in
      Refuses-continues (process_trace joi p t) (process_chain joi ps t) refuses
      ∙ chain_of_Recorded ps t r (ground arith) h

  Recorded-of_chain :
      (ps : List TracesProcessor) (t : Trace) (r : Row)
      → process_chain joi ps t ≡ ok (some r)
      → Recorded ps t r
  unfolding process_chain
  Recorded-of_chain [] t r h = cc
  Recorded-of_chain (p ∷ ps) t r h = elim (Attempt-cases (process_trace joi p t)) [
    | inl (row, e) ↦ inl (e ∙ ground arith)
    | inr (inl refuses) ↦ inr (Recorded-of_chain ps t r (sym (Refuses-continues _ _ refuses) ∙ h))
    | inr (inr (m, e)) ↦ cc (rw e at h)
  ]

-- A trace gets the row that one of the ten processors makes of it, whichever of them that is:
-- no other processor takes it, so the order in which they are bound does not matter. Where the
-- chain gives a row, a processor made it.
pub process_chain_iff :
    (joi : Schema → Fields → Bool) (tokens_amount : String → ℤ) (types : TraceTypes) (t : Trace)
    (r : Row)
    → (process_chain joi (trace_processors tokens_amount types joi) t ≡ ok (some r))
      ↔ Recorded joi (trace_processors tokens_amount types joi) t r
process_chain_iff joi tokens_amount types t r = (
  Recorded-of_chain joi (trace_processors tokens_amount types joi) t r,
  chain_of_Recorded joi (trace_processors tokens_amount types joi) t r refl,
)
