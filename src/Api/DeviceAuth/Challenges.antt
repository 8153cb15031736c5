-- ===== src/Api/DeviceAuth/Challenges.antt =====
-- A challenge of DeviceAuthService.ts opens one session at most.
use rosa_pay_application.Base.{
  ℕ, ◌+◌, ◌≤◌, ◌≡◌, refl, String, true, false, ◌&&◌, none, List, [], ◌∷◌, arith, All, str_eq,
  eq_iff, eq_refl, is_ok, if◌then◌else◌, Bool-cases, inl, inr,
}
use rosa_pay_application.Base.Dict.{get, get-put, get-delete}
use rosa_pay_application.Api.DeviceAuth.{
  Runtime, AuthRepo, challenge, create_session, consume_challenge, ensure_user, save_challenge,
}

-- A call of the service: a challenge with the id and digest that were drawn, or an answer to one.
pub data DeviceCall : Type 0 where
  asking : ℕ → String → String → String → DeviceCall
  answering : ℕ → String → String → String → DeviceCall

-- The call draws another challenge id than this one.
abbrev pub DrawsAnother : String → DeviceCall → Type 0
DrawsAnother id (asking now drawn digest signer) = str_eq drawn id ≡ false
DrawsAnother id (answering now answered signer signature) = Unit

module _ (rt : Runtime) (secret : String) where
  -- The sessions that the calls, one after another, open with the challenge of this id.
  pub opened : String → List DeviceCall → AuthRepo → ℕ
  opened id [] r = 0
  opened id (asking now drawn digest signer ∷ calls) r =
      opened id calls (challenge rt now drawn digest signer r).1
  opened id (answering now answered signer signature ∷ calls) r =
      let (answer, r') = create_session rt secret now answered signer signature r in
      (if str_eq answered id && is_ok answer then 1 else 0) + opened id calls r'

  challenge-keeps :
      (now : ℕ) (drawn digest signer id : String) (r : AuthRepo)
      → str_eq drawn id ≡ false
      → get id (challenge rt now drawn digest signer r).1.challenges ≡ get id r.challenges
  unfolding challenge save_challenge
  challenge-keeps now drawn digest signer id r other = grind (arith, get-put)

  -- An answer under another id leaves the challenge.
  create_session-keeps :
      (now : ℕ) (answered signer signature id : String) (r : AuthRepo)
      → str_eq answered id ≡ false
      → get id (create_session rt secret now answered signer signature r).1.challenges
        ≡ get id r.challenges
  unfolding create_session consume_challenge ensure_user
  create_session-keeps now answered signer signature id r other =
      ground (arith, get-delete answered id r.challenges)

  -- An answer that opens a session uses the challenge up.
  create_session-consumes :
      (now : ℕ) (signer signature id : String) (r : AuthRepo)
      → is_ok (create_session rt secret now id signer signature r).0 ≡ true
      → get id (create_session rt secret now id signer signature r).1.challenges ≡ none
  unfolding create_session consume_challenge ensure_user
  create_session-consumes now signer signature id r answered =
      ground (arith, get-delete id id r.challenges, eq_refl id)

  -- Without its challenge an answer opens nothing and draws none.
  create_session-without :
      (now : ℕ) (signer signature id : String) (r : AuthRepo)
      → get id r.challenges ≡ none
      → (is_ok (create_session rt secret now id signer signature r).0 ≡ false)
        × (get id (create_session rt secret now id signer signature r).1.challenges ≡ none)
  unfolding create_session consume_challenge ensure_user
  create_session-without now signer signature id r gone =
      ground (arith, get-delete id id r.challenges)

  opened-without :
      (id : String) (calls : List DeviceCall) (r : AuthRepo)
      → All (DrawsAnother id) calls
      → get id r.challenges ≡ none
      → opened id calls r ≡ 0
  unfolding opened
  opened-without id [] r others gone = refl
  opened-without id (asking now drawn digest signer ∷ calls) r (other, others) gone =
      opened-without id calls _ others
        (rw (challenge-keeps now drawn digest signer id r other) gone)
  opened-without id (answering now answered signer signature ∷ calls) r (_, others) gone =
      elim (Bool-cases (str_eq answered id)) [
        | inr other ↦ rw other (
            omega (
              arith,
              opened-without id calls (create_session rt secret now answered signer signature r).1
                  others (rw (create_session-keeps now answered signer signature id r other) gone),
            ))
        | inl same ↦
            let at_id : answered ≡ id = (eq_iff answered id).0 same in
            let (refused, still) = create_session-without now signer signature id r gone in
            rw same (
              rw at_id (
                rw refused (
                  omega (
                    arith,
                    opened-without id calls (create_session rt secret now id signer signature r).1
                        others still,
                  ))))
      ]

  -- However the calls of all devices follow one another, a challenge opens at most one session, as
  -- long as its id is not drawn again.
  pub opened_once :
      (id : String) (calls : List DeviceCall) (r : AuthRepo)
      → All (DrawsAnother id) calls
      → opened id calls r ≤ 1
  unfolding opened
  opened_once id [] r others = omega arith
  opened_once id (asking now drawn digest signer ∷ calls) r (other, others) =
      opened_once id calls _ others
  opened_once id (answering now answered signer signature ∷ calls) r (_, others) =
      elim (Bool-cases (str_eq answered id)) [
        | inr other ↦ rw other (
            omega (
              arith,
              opened_once id calls (create_session rt secret now answered signer signature r).1
                  others,
            ))
        | inl same ↦
            let at_id : answered ≡ id = (eq_iff answered id).0 same in
            rw same (
              rw at_id
                (elim (Bool-cases (is_ok (create_session rt secret now id signer signature r).0)) [
                  | inr refused ↦ rw refused (
                      omega (
                        arith,
                        opened_once id calls (create_session rt secret now id signer signature r).1
                            others,
                      ))
                  | inl accepted ↦ rw accepted (
                      omega (
                        arith,
                        opened-without id calls
                            (create_session rt secret now id signer signature r).1 others
                            (create_session-consumes now signer signature id r accepted),
                      ))
                ]))
      ]
