-- ===== src/Http/Errors/Statuses.antt =====
-- Which status a rejected request is answered with (crates/http/src/server/errors.rs).
use rs_mev_relay.Prelude.{
  ℕ, Option, none, some, List, [], ◌∷◌, ◌++◌, codes, ◌≡◌, ◌⊎◌, inl, inr, refl, ap, ◌≢◌, some-inj,
  arith, Option-cases,
}
use rs_mev_relay.Http.Errors.{
  ApiError, Rejection, text, find_cause, is_get_header, is_post_blinded_block, is_post_bids,
  is_get_bids, handle_rejection,
}

-- One of the causes is an error of a route.
abbrev pub Holds : ApiError → Rejection → Type 0
Holds e [] = ⊥
Holds e (cause ∷ causes) = (cause ≡ some e) ⊎ Holds e causes

module _ (pick : ApiError → Option ApiError) where
  -- A test that picks an error as it is finds one that is there.
  find_cause-Holds :
      (causes : Rejection) (f : ApiError)
      → ((e g : ApiError) → pick e ≡ some g → e ≡ g)
      → find_cause pick causes ≡ some f
      → Holds f causes
  find_cause-Holds [] f as_it_is e = cc
  find_cause-Holds (none ∷ causes) f as_it_is e = inr (find_cause-Holds causes f as_it_is e)
  find_cause-Holds (some g ∷ causes) f as_it_is e = elim (Option-cases (pick g)) [
    | inl not_it ↦ inr (find_cause-Holds causes f as_it_is (ground arith))
    | inr (h, it) ↦ inl (ap some (as_it_is g f (ground arith)))
  ]

  -- It finds one if it picks one that is there.
  find_cause-some :
      (causes : Rejection) (e : ApiError)
      → pick e ≡ some e
      → Holds e causes
      → find_cause pick causes ≢ none
  find_cause-some [] e picks there = absurd there
  find_cause-some (none ∷ causes) e picks (inl same) = cc
  find_cause-some (none ∷ causes) e picks (inr there) = find_cause-some causes e picks there
  find_cause-some (some g ∷ causes) e picks (inl same) =
      let it : g ≡ e = some-inj same in λ nothing. ground arith
  find_cause-some (some g ∷ causes) e picks (inr there) =
      let later = find_cause-some causes e picks there in λ nothing. ground arith

is_get_header-same : (e g : ApiError) → is_get_header e ≡ some g → e ≡ g
is_get_header-same e g h = ground arith

is_post_blinded_block-same : (e g : ApiError) → is_post_blinded_block e ≡ some g → e ≡ g
is_post_blinded_block-same e g h = ground arith

is_post_bids-same : (e g : ApiError) → is_post_bids e ≡ some g → e ≡ g
is_post_bids-same e g h = ground arith

is_get_bids-same : (e g : ApiError) → is_get_bids e ≡ some g → e ≡ g
is_get_bids-same e g h = ground arith

-- If the four tests find nothing, there is no error of a route.
none-Holds :
    (causes : Rejection) (e : ApiError)
    → find_cause is_get_header causes ≡ none
    → find_cause is_post_blinded_block causes ≡ none
    → find_cause is_post_bids causes ≡ none
    → find_cause is_get_bids causes ≡ none
    → ¬ Holds e causes
none-Holds causes (ApiError.get_header e) a b c d there =
    find_cause-some is_get_header causes (ApiError.get_header e) refl there a
none-Holds causes (ApiError.post_blinded_block e) a b c d there =
    find_cause-some is_post_blinded_block causes (ApiError.post_blinded_block e) refl there b
none-Holds causes (ApiError.post_bids e) a b c d there =
    find_cause-some is_post_bids causes (ApiError.post_bids e) refl there c
none-Holds causes (ApiError.get_bids e) a b c d there =
    find_cause-some is_get_bids causes (ApiError.get_bids e) refl there d

-- Every rejection is answered: with status 400 and the text of an error of a route that is among
-- its causes, or, where there is none among them, with status 500, be it an unknown path, a
-- malformed body or a refused API key.
pub handle_rejection-cases :
    (debug : List ℕ) (causes : Rejection)
    → ((e : ApiError) × Holds e causes
        × (handle_rejection debug causes ≡ record { status = 400; message = text e }))
      ⊎ (((e : ApiError) → ¬ Holds e causes)
          × (handle_rejection debug causes
              ≡ record { status = 500; message = codes "Error: " ++ debug }))
unfolding handle_rejection
handle_rejection-cases debug causes = elim (Option-cases (find_cause is_get_header causes)) [
  | inr (e, is) ↦ inl (
    e,
    find_cause-Holds is_get_header causes e is_get_header-same is,
    rw (is, handle_rejection) refl,
  )
  | inl a ↦ elim (Option-cases (find_cause is_post_blinded_block causes)) [
    | inr (e, is) ↦ inl (
      e,
      find_cause-Holds is_post_blinded_block causes e is_post_blinded_block-same is,
      rw (a, is, handle_rejection) refl,
    )
    | inl b ↦ elim (Option-cases (find_cause is_post_bids causes)) [
      | inr (e, is) ↦ inl (
        e,
        find_cause-Holds is_post_bids causes e is_post_bids-same is,
        rw (a, b, is, handle_rejection) refl,
      )
      | inl c ↦ elim (Option-cases (find_cause is_get_bids causes)) [
        | inr (e, is) ↦ inl (
          e,
          find_cause-Holds is_get_bids causes e is_get_bids-same is,
          rw (a, b, c, is, handle_rejection) refl,
        )
        | inl d ↦ inr (λ e. none-Holds causes e a b c d, rw (a, b, c, d, handle_rejection) refl)
      ]
    ]
  ]
]
