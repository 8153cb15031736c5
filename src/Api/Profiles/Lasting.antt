-- ===== src/Api/Profiles/Lasting.antt =====
-- A merchant profile stays what it was created as.
use rosa_pay_application.Base.{
  ◌≡◌, refl, sym, subst, ◌∙◌, String, Bool, not, ◌||◌, Option, none, some, Option-cases, Bool-cases,
  ◌⊎◌, inl, inr, str_eq, eq_iff, arith,
}
use rosa_pay_application.Base.Dict.{get, put, get-put}
use rosa_pay_application.Base.Text.{codes}
use rosa_pay_application.Protocol.Schema.{is_some}
use rosa_pay_application.Api.Profiles.{
  MerchantProfile, CreateMerchantProfileInput, Table, save_in_postgres, save_over, differs,
  create_over, create, fresh_profile, starts_with_g,
}

-- The same profile, but for an email that it had none of.
pub record Lasts (before after : MerchantProfile) : Type 0 where
  pub id : after.id ≡ before.id
  pub user_id : after.user_id ≡ before.user_id
  pub display_name : after.display_name ≡ before.display_name
  pub recipient : after.recipient ≡ before.recipient
  pub signing_key : after.signing_key ≡ before.signing_key
  pub network : after.network ≡ before.network
  pub email : (before.email ≡ none) ⊎ (after.email ≡ before.email)

lasting_refl : (p : MerchantProfile) → Lasts p p
lasting_refl p = record {
  id = refl;
  user_id = refl;
  display_name = refl;
  recipient = refl;
  signing_key = refl;
  network = refl;
  email = inr refl;
}

email_trans :
    (a b c : Option String) → (a ≡ none) ⊎ (b ≡ a) → (b ≡ none) ⊎ (c ≡ b) → (a ≡ none) ⊎ (c ≡ a)
email_trans a b c (inl h) k = inl h
email_trans a b c (inr h) (inl k) = inl (sym h ∙ k)
email_trans a b c (inr h) (inr k) = inr (k ∙ h)

lasting_trans : (p q r : MerchantProfile) → Lasts p q → Lasts q r → Lasts p r
lasting_trans p q r h k = record {
  id = k.id ∙ h.id;
  user_id = k.user_id ∙ h.user_id;
  display_name = k.display_name ∙ h.display_name;
  recipient = k.recipient ∙ h.recipient;
  signing_key = k.signing_key ∙ h.signing_key;
  network = k.network ∙ h.network;
  email = email_trans p.email q.email r.email h.email k.email;
}

-- Every profile that was in the table is still there, and the same.
pub record Keeps (before after : Table) : Type 0 where
  pub kept :
      (id : String) (profile : MerchantProfile)
      → get id before ≡ some profile
      → (now : MerchantProfile) × (get id after ≡ some now) × Lasts profile now

Keeps-refl : (t : Table) → Keeps t t
Keeps-refl t = record { kept = λ id p h. (p, h, lasting_refl p) }

Keeps-trans : (t u v : Table) → Keeps t u → Keeps u v → Keeps t v
Keeps-trans t u v h k = record {
  kept = λ id p found.
      let (q, later, first) = h.kept id p found in
      let (r, now, second) = k.kept id q later in (r, now, lasting_trans p q r first second);
}

-- A write under an identifier that has no profile, or one that lasts in what is written.
put-Keeps :
    (t : Table) (key : String) (written : MerchantProfile)
    → ((p : MerchantProfile) → get key t ≡ some p → Lasts p written)
    → Keeps t (put key written t)
put-Keeps t key written h = record {
  kept = λ id p found. elim (Bool-cases (str_eq key id)) [
    | inl same ↦ (
      written,
      get-put key id written t ∙ rw same refl,
      h p (subst (λ k. get k t ≡ some p) (sym ((eq_iff key id).0 same)) found),
    )
    | inr other ↦ (p, get-put key id written t ∙ rw other found, lasting_refl p)
  ];
}

some_injective :
    (p q : MerchantProfile) → ◌≡◌ {A = Option MerchantProfile} (some p) (some q) → p ≡ q
some_injective p q h = ground arith

save_over-Keeps :
    (o : Option MerchantProfile) (profile : MerchantProfile) (t : Table)
    → get profile.id t ≡ o
    → Keeps t (save_over o profile t)
save_over-Keeps none profile t found =
    put-Keeps t profile.id profile (λ p h. absurd (sym found ∙ h))
  where
    absurd : {C : Type 0} {p : MerchantProfile} → ◌≡◌ {A = Option MerchantProfile} none (some p) → C
    absurd h = ground arith
save_over-Keeps (some row) profile t found = elim (Option-cases row.email) [
  | inr (email, present) ↦ rw present (Keeps-refl t)
  | inl missing ↦ rw missing (
      put-Keeps t profile.id (record row { email = profile.email })
        (λ p h.
          subst (λ q. Lasts q (record row { email = profile.email }))
            (some_injective row p (sym found ∙ h))
            (record {
              id = refl;
              user_id = refl;
              display_name = refl;
              recipient = refl;
              signing_key = refl;
              network = refl;
              email = inl missing;
            })))
]

pub save_in_postgres-Keeps :
    (profile : MerchantProfile) (t : Table) → Keeps t (save_in_postgres profile t)
unfolding save_in_postgres
save_in_postgres-Keeps profile t = save_over-Keeps (get profile.id t) profile t refl

module _ (between : Table → Table) where
  create_over-Keeps :
      (o : Option MerchantProfile) (input : CreateMerchantProfileInput) (user : Option String)
      (t : Table)
      → Keeps t (between t)
      → Keeps t (create_over save_in_postgres between o input user t).1
  unfolding create_over
  create_over-Keeps none input user t others =
      Keeps-trans t (between t) _ others
        (save_in_postgres-Keeps (fresh_profile input user) (between t))
  create_over-Keeps (some existing) input user t others =
      elim (Bool-cases (differs existing input user)) [
        | inl other ↦ rw other (Keeps-refl t)
        | inr same ↦ elim (Bool-cases (not (is_some existing.email))) [
          | inl bare ↦ rw same (
              rw bare (
                Keeps-trans t (between t) _ others (
                  save_in_postgres-Keeps (record existing { email = some input.email })
                    (between t))))
          | inr filled ↦ rw same (rw filled (Keeps-refl t))
        ]
      ]

  -- Whatever is asked to be created, and whatever other requests write meanwhile that keeps the
  -- profiles of the table, every profile of the PostgreSQL table keeps its owner, its name, its
  -- addresses, its network and the email it has, if it has one.
  pub create-Keeps :
      (is_valid : String → Bool) (input : CreateMerchantProfileInput) (user : Option String)
      (t : Table)
      → Keeps t (between t)
      → Keeps t (create save_in_postgres between is_valid input user t).1
  unfolding create
  create-Keeps is_valid input user t others = elim (Bool-cases (not (is_valid input.recipient))) [
    | inl bad ↦ rw bad (Keeps-refl t)
    | inr good ↦
        elim (Bool-cases
          (not (is_valid input.signing_key) || not (starts_with_g (codes input.signing_key)))) [
            | inl bad ↦ rw good (rw bad (Keeps-refl t))
            | inr signing ↦
                rw good (rw signing (create_over-Keeps (get input.id t) input user t others))
          ]
  ]
