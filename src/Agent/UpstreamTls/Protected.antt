-- ===== src/Agent/UpstreamTls/Protected.antt =====
-- internal/agent/upstreamtls.go: a policy is built from a valid mode only, and checks what it names.
use skybridge.Prelude.{
  ◌≡◌, refl, ◌≢◌, ◌⊎◌, inl, inr, arith, Bool, true, false, Option, none, some, [], ◌∷◌, Bytes,
  bytes_equal, bytes_equal_iff, Bool-cases, Option-cases, Result-cases, Result, ok, err,
}
use skybridge.Prelude.Text.{codes, Unicode, trim_space, to_lower}
use skybridge.Edge.Policy.{is_in}
use skybridge.Agent.{Config}
use skybridge.Config.{upstream_tls_enabled}
use skybridge.Agent.UpstreamTls.{
  Policy, Trust, PolicyError, valid_modes, verify_modes, roots_of, policy_for,
  build_upstream_tls_policy, Verification, unchecked, chain, chain_and_name, verification_for,
  config_for, required,
}

-- What a mode means: whether a plaintext connection is refused, and what is checked of a certificate,
-- for the host of any address.
pub Checks : {R : Type 0} → Policy R → Bool → (Option R → Verification R) → Type 0
Checks {R} p needed verification =
    (required p ≡ needed)
    × ((host : Bytes) → (config_for p host).verification ≡ verification p.roots)

-- The policy is of one of the four modes, and checks what the mode names; the modes that verify have
-- roots.
pub IsPolicy : {R : Type 0} → Policy R → Type 0
unfolding Checks
IsPolicy p =
    (p.mode ≡ codes "prefer") × Checks p false (λ r. unchecked)
    ⊎ ((p.mode ≡ codes "require") × Checks p true (λ r. unchecked)
        ⊎ ((p.mode ≡ codes "verify-ca") × (p.roots ≢ none) × Checks p true chain
            ⊎ (p.mode ≡ codes "verify-full") × (p.roots ≢ none) × Checks p true chain_and_name))

four_names :
    (s a b c d : Bytes)
    → is_in s (a ∷ b ∷ c ∷ d ∷ []) ≡ true
    → (s ≡ a) ⊎ ((s ≡ b) ⊎ ((s ≡ c) ⊎ (s ≡ d)))
unfolding is_in
four_names s a b c d h =
    ground
      (arith, bytes_equal_iff s a, bytes_equal_iff s b, bytes_equal_iff s c, bytes_equal_iff s d)

module _ {R : Type 0} where
  roots_of_verify :
      (x : Trust R) (pem mode : Bytes) (roots : Option R)
      → is_in mode verify_modes ≡ true
      → roots_of x pem mode ≡ ok roots
      → roots ≢ none
  unfolding roots_of
  roots_of_verify x (b ∷ pem) mode roots verify h = elim (Option-cases (x.parse_pem (b ∷ pem))) [
    | inl e ↦ let never = rw (e, roots_of) at h in λ q. cc
    | inr (pool, e) ↦ let same = rw (e, roots_of) at h in λ q. cc
  ]
  roots_of_verify x [] mode roots verify h = elim (Result-cases x.system) [
    | inl (pool, e) ↦ let same = rw (verify, e, roots_of) at h in λ q. cc
    | inr (msg, e) ↦ let never = rw (verify, e, roots_of) at h in λ q. cc
  ]

  abbrev policy : Bytes → Bytes → Option R → Policy R
  policy mode name roots = record { mode = mode; server_name = name; roots = roots }

  policy-IsPolicy :
      (mode name : Bytes) (roots : Option R)
      → is_in mode valid_modes ≡ true
      → (is_in mode verify_modes ≡ true → roots ≢ none)
      → IsPolicy (policy mode name roots)
  unfolding IsPolicy Checks required config_for verification_for is_in bytes_equal
  policy-IsPolicy mode name roots valid verify =
      elim (four_names mode (codes "prefer") (codes "require") (codes "verify-ca")
        (codes "verify-full") valid) [
          | inl e ↦ inl (e, (rw e refl, λ host. rw e refl))
          | inr (inl e) ↦ inr (inl (e, (rw e refl, λ host. rw e refl)))
          | inr (inr (inl e)) ↦
              inr (inr (inl (e, verify (rw e refl), (rw e refl, λ host. rw e refl))))
          | inr (inr (inr e)) ↦
              inr (inr (inr (e, verify (rw e refl), (rw e refl, λ host. rw e refl))))
        ]

  policy_for-IsPolicy :
      (u : Unicode) (cfg : Config) (mode : Bytes) (r : Result PolicyError (Option R)) (p : Policy R)
      → is_in mode valid_modes ≡ true
      → ((roots : Option R) → r ≡ ok roots → is_in mode verify_modes ≡ true → roots ≢ none)
      → policy_for u cfg mode r ≡ ok (some p)
      → IsPolicy p
  unfolding policy_for
  policy_for-IsPolicy u cfg mode (err e) p valid verify h = cc
  policy_for-IsPolicy u cfg mode (ok roots) p valid verify h =
      let same : policy mode (trim_space u cfg.upstream_tls_server_name) roots ≡ p = cc in
      rw (← same) (
        policy-IsPolicy mode (trim_space u cfg.upstream_tls_server_name) roots valid
          (verify roots refl))

  -- A policy that the agent builds is of one of the four modes, in lower case and without the space
  -- around it: prefer, which accepts plaintext and checks nothing; require, which refuses plaintext and
  -- checks nothing; verify-ca, which refuses plaintext and checks the chain; or verify-full, which also
  -- checks the name. The modes that verify have a pool of roots, given or the system's.
  pub build_upstream_tls_policy-IsPolicy :
      (u : Unicode) (x : Trust R) (cfg : Config) (p : Policy R)
      → build_upstream_tls_policy u x cfg ≡ ok (some p)
      → IsPolicy p
  unfolding build_upstream_tls_policy
  build_upstream_tls_policy-IsPolicy u x cfg p h =
      let mode = to_lower u (trim_space u cfg.upstream_tls_mode) in
      elim (Bool-cases (upstream_tls_enabled u cfg)) [
        | inr off ↦ let never = rw (off, build_upstream_tls_policy) at h in absurd (cc)
        | inl on ↦ elim (Bool-cases (is_in mode valid_modes)) [
          | inr bad ↦ let never = rw (on, bad, build_upstream_tls_policy) at h in absurd (cc)
          | inl valid ↦
              policy_for-IsPolicy u cfg mode (roots_of x cfg.upstream_tls_ca_pem mode) p valid
                (λ roots e verify. roots_of_verify x cfg.upstream_tls_ca_pem mode roots verify e)
                (rw (on, valid, build_upstream_tls_policy) at h)
        ]
      ]
