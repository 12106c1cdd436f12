-- ===== src/Config/Valid.antt =====
-- What holds of every configuration that is read.
use mathlib.Core.Path.{subst}
use stadhouder.Base.{
  ℕ, ◌*◌, ◌%◌, ◌<◌, ◌^◌, ◌≡◌, inl, inr, true, false, Option, none, some, arith, Text, codes, Result,
  ok, err, is_empty, Bool-cases, Option-cases, ◌==◌, Assoc, lookup, >>=-eq-ok,
}
use stadhouder.Text.{trim, parse_u64}
use stadhouder.Text.Trim.{trim-trim}
use stadhouder.Float.{Float}
use stadhouder.Config.{
  Config, non_blank, limit_of, read_test_env, read_limit, default_config, pct_of, read_pct,
  from_values, from_str, parse_kv, load,
}

-- A setting that is not blank, without white space around it.
abbrev IsGiven : Option Text → Type 0
IsGiven none = Unit
IsGiven (some v) = (trim v ≡ v) × (is_empty v ≡ false)

-- Whole megabytes, in 64 bits.
abbrev IsLimit : Option ℕ → Type 0
IsLimit none = Unit
IsLimit (some n) = (n < 2 ^ 64) × (n % 1048576 ≡ 0)

pub record Valid {F : Type 0} (f : Float F) (c : Config F) : Type 0 where
  pub cookie : IsGiven c.cookie_name
  pub url : IsGiven c.user_id_url
  pub json : IsGiven c.user_id_json
  pub limit : IsLimit c.memory_limit_bytes
  pub pct : f.gtb c.memory_reject_pct f.zero ≡ true

non_blank-IsGiven : (o : Option Text) → IsGiven (non_blank o)
unfolding non_blank
non_blank-IsGiven none = tt
non_blank-IsGiven (some v) = elim (Bool-cases (is_empty (trim v))) [
  | inl blank ↦ rw (non_blank, blank) tt
  | inr set_ ↦ rw (non_blank, set_) (trim-trim v, set_)
]

ok-eq : {A : Type 0} {a b : A} → ok a ≡ ok b → a ≡ b
ok-eq h = cc

bytes-IsLimit : (mb : ℕ) → IsLimit (some (mb * 1024 % 2 ^ 64 * 1024 % 2 ^ 64))
bytes-IsLimit mb = (omega arith, omega arith)

limit_of-IsLimit : (o l : Option ℕ) → limit_of o ≡ ok l → IsLimit l
unfolding limit_of
limit_of-IsLimit none l h = cc
limit_of-IsLimit (some mb) l h = elim (Bool-cases (mb == 0)) [
  | inl nothing ↦ cc (rw (limit_of, nothing) at h)
  | inr more ↦ subst IsLimit (ok-eq (rw (limit_of, more) at h)) (bytes-IsLimit mb)
]

read_limit-IsLimit : (o : Option Text) (l : Option ℕ) → read_limit o ≡ ok l → IsLimit l
unfolding read_limit
read_limit-IsLimit none l h = subst IsLimit (ok-eq h) tt
read_limit-IsLimit (some v) l h = limit_of-IsLimit (parse_u64 v) l h

module _ {F : Type 0} (f : Float F) (hundred : f.gtb f.hundred f.zero ≡ true) where
  read_pct-positive : (o : Option Text) (pct : F) → read_pct f o ≡ ok pct → f.gtb pct f.zero ≡ true
  unfolding read_pct pct_of
  read_pct-positive none pct h = subst (λ p. f.gtb p f.zero ≡ true) (ok-eq h) hundred
  read_pct-positive (some v) pct h = elim (Option-cases (f.parse v)) [
    | inl e ↦ cc (rw (e, pct_of) at h)
    | inr (p, e) ↦ elim (Bool-cases (f.gtb p f.zero)) [
      | inl positive ↦
          subst (λ p. f.gtb p f.zero ≡ true) (ok-eq (rw (e, pct_of, positive) at h)) positive
      | inr not_positive ↦ cc (rw (e, pct_of, not_positive) at h)
    ]
  ]

  from_values-Valid : (values : Assoc Text) (c : Config F) → from_values f values ≡ ok c → Valid f c
  unfolding from_values
  from_values-Valid values c h =
      let (env, _, h₁) = >>=-eq-ok (read_test_env (lookup (codes "TEST_ENV") values)) _ h in
      let (l, limit, h₂) =
        >>=-eq-ok (read_limit (non_blank (lookup (codes "MEMORY_LIMIT_MB") values))) _ h₁ in
      let (p, pct, h₃) =
        >>=-eq-ok (read_pct f (non_blank (lookup (codes "MEMORY_REJECT_PCT") values))) _ h₂ in
      subst (Valid f) (ok-eq h₃) (record {
        cookie = non_blank-IsGiven (lookup (codes "COOKIE_NAME") values);
        url = non_blank-IsGiven (lookup (codes "USER_ID_URL") values);
        json = non_blank-IsGiven (lookup (codes "USER_ID_JSON") values);
        limit = read_limit-IsLimit (non_blank (lookup (codes "MEMORY_LIMIT_MB") values)) l limit;
        pct = read_pct-positive (non_blank (lookup (codes "MEMORY_REJECT_PCT") values)) p pct;
      })

  -- Whatever the file holds: a configuration that is read, or stands in for a missing file, has settings
  -- that are not blank and have no white space around them, a limit of whole megabytes in 64 bits, and
  -- a percentage above zero, if a hundred is above zero.
  pub load-Valid : (file : Option (Result Text)) (c : Config F) → load f file ≡ ok c → Valid f c
  unfolding load default_config from_str
  load-Valid none c h =
      subst (Valid f) (ok-eq h)
        (record { cookie = tt; url = tt; json = tt; limit = tt; pct = hundred })
  load-Valid (some (ok t)) c h = from_values-Valid (parse_kv t) c h
  load-Valid (some (err m)) c h = cc
