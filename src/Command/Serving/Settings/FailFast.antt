-- ===== src/Command/Serving/Settings/FailFast.antt =====
-- A setting that cannot be read stops serve.
use secretproxy.Prelude.{
  ◌≡◌, refl, ◌⊎◌, inl, inr, true, false, Bool-cases, Option, none, some, Option-cases, is_empty, ok,
  err,
}
use secretproxy.Text.{Str, Unicode, trim_space}
use secretproxy.Command.{System, SettingError, bad_number, bad_duration, env_parsed}
use secretproxy.Command.Numbers.{ℤ}
use secretproxy.Command.Serving.{Host}
use secretproxy.Command.Serving.Settings.{
  NumberParsers, Settings, max_bytes_key, read_timeout_key, idle_timeout_key, max_bytes_fallback,
  read_timeout_fallback, idle_timeout_fallback, bad_setting, settings_from, serve_defaults, set_up,
}

module _ ⦃u : Unicode⦄ where
  abbrev given_value : System → Str → Str
  given_value os key = trim_space (os.getenv key)

  -- A variable that is set, and not to what can be read.
  abbrev pub IsTypo {ℓ} : {A : Type ℓ} → System → (Str → Option A) → Str → Type ℓ
  IsTypo os parse key =
      (is_empty (trim_space (os.getenv key)) ≡ false) × (parse (trim_space (os.getenv key)) ≡ none)

  -- The variable's value, or the fallback of one that is not set.
  abbrev pub IsRead {ℓ} : {A : Type ℓ} → System → (Str → Option A) → Str → A → A → Type ℓ
  IsRead os parse key fallback a =
      ((is_empty (trim_space (os.getenv key)) ≡ true) × (a ≡ fallback))
      ⊎ ((is_empty (trim_space (os.getenv key)) ≡ false)
          × (parse (trim_space (os.getenv key)) ≡ some a))

  env_parsed-cases :
      (bad : Str → Str → SettingError) (os : System) (parse : Str → Option ℤ) (key : Str)
      (fallback : ℤ)
      → (IsTypo os parse key
          × (env_parsed bad os parse key fallback ≡ err (bad key (trim_space (os.getenv key)))))
        ⊎ ((a : ℤ) × IsRead os parse key fallback a × (env_parsed bad os parse key fallback ≡ ok a))
  unfolding env_parsed
  env_parsed-cases bad os parse key fallback =
      elim (Bool-cases (is_empty (trim_space (os.getenv key)))) [
        | inl unset ↦ inr (fallback, inl (unset, refl), rw unset refl)
        | inr given ↦ elim (Option-cases (parse (trim_space (os.getenv key)))) [
          | inl bad_value ↦ inl ((given, bad_value), rw given (rw bad_value refl))
          | inr (a, e) ↦ inr (a, inr (given, e), rw given (rw e refl))
        ]
      ]

  IsRead-ne-IsTypo :
      (os : System) (parse : Str → Option ℤ) (key : Str) (fallback a : ℤ)
      → IsRead os parse key fallback a
      → IsTypo os parse key
      → ⊥
  IsRead-ne-IsTypo os parse key fallback a (inl (unset, e)) (given, bad) = cc
  IsRead-ne-IsTypo os parse key fallback a (inr (given, e)) (_, bad) = cc

  -- Whichever of the three is a typo, serve refuses to start, whatever its flags say; and if none is, the
  -- defaults of the flags are what the environment says, or the fallbacks where it says nothing.
  pub settings-IsRead :
      (os : System) (p : NumberParsers)
      → let typo =
          IsTypo os p.parse_int max_bytes_key
          ⊎ (IsTypo os p.parse_duration read_timeout_key
              ⊎ IsTypo os p.parse_duration idle_timeout_key) in
        (typo
          → (e : SettingError) × ((host : Host) (parse : Settings → Option Settings)
              → set_up os p host parse ≡ err (bad_setting e)))
        × ((typo → ⊥)
            → (d : Settings) × (serve_defaults os p ≡ ok d)
              × IsRead os p.parse_int max_bytes_key max_bytes_fallback d.flags.max_request_bytes
              × IsRead os p.parse_duration read_timeout_key read_timeout_fallback d.read_timeout
              × IsRead os p.parse_duration idle_timeout_key idle_timeout_fallback d.idle_timeout)
  unfolding set_up serve_defaults
  settings-IsRead os p =
      elim (env_parsed-cases bad_number os p.parse_int max_bytes_key max_bytes_fallback) [
        | inl (t, e) ↦ (
          λ _. (bad_number max_bytes_key (given_value os max_bytes_key), λ host parse. rw e refl),
          λ none_bad. absurd (none_bad (inl t)),
        )
        | inr (n, r, e) ↦
            elim (env_parsed-cases bad_duration os p.parse_duration read_timeout_key
              read_timeout_fallback) [
                | inl (t, e') ↦ (
                  λ _. (
                    bad_duration read_timeout_key (given_value os read_timeout_key),
                    λ host parse. rw e (rw e' refl),
                  ),
                  λ none_bad. absurd (none_bad (inr (inl t))),
                )
                | inr (n', r', e') ↦
                    elim (env_parsed-cases bad_duration os p.parse_duration idle_timeout_key
                      idle_timeout_fallback) [
                        | inl (t, e'') ↦ (
                          λ _. (
                            bad_duration idle_timeout_key (given_value os idle_timeout_key),
                            λ host parse. rw e (rw e' (rw e'' refl)),
                          ),
                          λ none_bad. absurd (none_bad (inr (inr t))),
                        )
                        | inr (n'', r'', e'') ↦ (
                          λ typo. absurd (elim typo [
                            | inl t ↦
                                IsRead-ne-IsTypo os p.parse_int max_bytes_key max_bytes_fallback n r
                                  t
                            | inr (inl t) ↦
                                IsRead-ne-IsTypo os p.parse_duration read_timeout_key
                                  read_timeout_fallback n' r' t
                            | inr (inr t) ↦
                                IsRead-ne-IsTypo os p.parse_duration idle_timeout_key
                                  idle_timeout_fallback n'' r'' t
                          ]),
                          λ _. (settings_from os n n' n'', rw e (rw e' (rw e'' refl)), r, r', r''),
                        )
                      ]
              ]
      ]
