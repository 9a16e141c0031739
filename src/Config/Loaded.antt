-- ===== src/Config/Loaded.antt =====
-- What `Load` returns.
use monitoring_tool.Prelude.{
  ℕ, ◌+◌, ◌-◌, ◌*◌, ◌≡◌, refl, sym, ap, ◌∙◌, ◌⊎◌, inl, inr, ◌≢◌, true, false, Bool-cases,
  Option-cases, String, ◌<>◌, List, [], ◌∷◌, ℤ, pos, negsuc, some, arith, str_eq, eq_iff, ◌||◌,
  ◌==◌,
}
use monitoring_tool.Results.{Result, ok, err, panics}
use monitoring_tool.Text.{codes, is_digit, digits_value, signed, atoi, show_ℤ}
use monitoring_tool.Text.Decimal.{FitsInt, atoi-show_ℤ}
use monitoring_tool.Text.Scan.{scan_int, skip_space, digits_prefix, number_prefix}
use monitoring_tool.Config.{Config, set_int, load, finish, timeout_or_15}

digits_prefix-digits : (xs : List ℕ) (n m : ℕ) → digits_value n xs ≡ some m → digits_prefix xs ≡ xs
unfolding digits_value digits_prefix
digits_prefix-digits [] n m e = refl
digits_prefix-digits (c ∷ cs) n m e =
    ground (arith, digits_prefix-digits cs (n * 10 + (c - b'0')) m)

abbrev Parts : ℕ → List ℕ → Type 0
Parts c cs =
    (((c == b'-' || c == b'+') ≡ true) × (m : ℕ) × (digits_value 0 cs ≡ some m))
    ⊎ (((c == b'-' || c == b'+') ≡ false)
        × (is_digit c ≡ true)
        × (m : ℕ) × (digits_value 0 (c ∷ cs) ≡ some m))

signed-Parts : (c : ℕ) (cs : List ℕ) (z : ℤ) → signed (c ∷ cs) ≡ some z → Parts c cs
unfolding digits_value
signed-Parts c [] z e = ground arith
signed-Parts c (d ∷ ds) z e = elim (Bool-cases (c == b'-' || c == b'+')) [
  | inl sign ↦ elim (Option-cases (digits_value 0 (d ∷ ds))) [
    | inl bad ↦ absurd (ground arith)
    | inr (m, good) ↦ inl (sign, m, good)
  ]
  | inr no_sign ↦ elim (Option-cases (digits_value 0 (c ∷ d ∷ ds))) [
    | inl bad ↦ absurd (ground arith)
    | inr (m, good) ↦ inr (no_sign, ground arith, m, good)
  ]
]

number_prefix-signed : (xs : List ℕ) (z : ℤ) → signed xs ≡ some z → number_prefix xs ≡ xs
number_prefix-signed [] z e = refl
number_prefix-signed (c ∷ cs) z e = elim (signed-Parts c cs z e) [
  | inl (sign, m, good) ↦ rw sign (ap (λ l. c ∷ l) (digits_prefix-digits cs 0 m good))
  | inr (no_sign, digit, m, good) ↦ rw no_sign (digits_prefix-digits (c ∷ cs) 0 m good)
]

skip_space-signed : (xs : List ℕ) (z : ℤ) → signed xs ≡ some z → skip_space xs ≡ some xs
unfolding skip_space
skip_space-signed [] z e = refl
skip_space-signed (c ∷ cs) z e = elim (signed-Parts c cs z e) [
  | inl (sign, m, good) ↦ ground arith
  | inr (no_sign, digit, m, good) ↦ ground arith
]

-- Whatever Atoi reads, Sscanf reads alike.
scan_int-atoi : (s : String) (z : ℤ) → atoi s ≡ some z → scan_int s ≡ some z
unfolding atoi scan_int
scan_int-atoi s z e =
    rw (skip_space-signed (codes s) z e) (rw (number_prefix-signed (codes s) z e) e)

nothing_read : {z : ℤ} → some z ≢ scan_int ""
unfolding scan_int
nothing_read e = cc

-- An int that is printed into the environment is the one that is set.
set_int-printed :
    (env : String → String) (key : String) (old z : ℤ)
    → env key ≡ show_ℤ z
    → FitsInt z
    → set_int env key old ≡ z
unfolding set_int
set_int-printed env key old z e fits =
    let read : scan_int (env key) ≡ some z =
      ap scan_int e ∙ scan_int-atoi (show_ℤ z) z (atoi-show_ℤ z fits) in
    elim (Bool-cases (str_eq (env key) "")) [
      | inl empty ↦ absurd (nothing_read (sym read ∙ ap scan_int ((eq_iff (env key) "").0 empty)))
      | inr there ↦ rw there (rw read refl)
    ]

module _ {F : Type 0} (of_int : ℤ → F) (env : String → String) where
  -- A configuration that is complete: the percentages are the thresholds, no timeout is zero, and the
  -- port and the threshold are the ones of the environment.
  abbrev pub IsComplete : ℤ → ℤ → Config F → Type 0
  IsComplete port threshold c =
      (c.server.read_timeout ≢ pos 0)
      × (c.server.write_timeout ≢ pos 0)
      × (c.alert_rules.pod_cpu_percent ≡ of_int c.alert_rules.pod_cpu_threshold)
      × (c.alert_rules.pod_memory_percent ≡ of_int c.alert_rules.pod_memory_threshold)
      × (c.alert_rules.node_cpu_percent ≡ of_int c.alert_rules.node_cpu_threshold)
      × (c.alert_rules.node_memory_percent ≡ of_int c.alert_rules.node_memory_threshold)
      × (c.server.port ≡ port)
      × (c.alert_rules.node_cpu_percent ≡ of_int threshold)

  abbrev pub Loading : ℤ → ℤ → Result String → (String → Result (Config F)) → Type 0
  Loading port threshold file parse =
      ((e : String) × (file ≡ err e)
        × (load of_int env file parse ≡ err ("failed to read config file: " <> e)))
      ⊎ ((text : String) × (e : String) × (file ≡ ok text)
          × (parse text ≡ err e)
          × (load of_int env file parse ≡ err ("failed to parse config: " <> e)))
      ⊎ ((text : String) × (c : Config F) × (r : Config F) × (file ≡ ok text)
          × (parse text ≡ ok c)
          × (load of_int env file parse ≡ ok r)
          × IsComplete port threshold r)
      ⊎ (load of_int env file parse ≡ panics)

  finish-IsComplete :
      (c : Config F) (port threshold : ℤ)
      → env "SERVER_PORT" ≡ show_ℤ port
      → FitsInt port
      → env "ALERT_NODE_CPU_THRESHOLD" ≡ show_ℤ threshold
      → FitsInt threshold
      → IsComplete port threshold (finish of_int env c)
  finish-IsComplete c port threshold p fp t ft = (
    or_15_pos _,
    or_15_pos _,
    refl,
    refl,
    refl,
    refl,
    set_int-printed env "SERVER_PORT" c.server.port port p fp,
    ap of_int (
        set_int-printed env "ALERT_NODE_CPU_THRESHOLD" c.alert_rules.node_cpu_threshold threshold t
          ft),
  )
    where
      or_15_pos : (z : ℤ) → timeout_or_15 z ≢ pos 0
      or_15_pos (pos ℕ.zero) e = ground arith
      or_15_pos (pos (ℕ.suc n)) e = ground arith
      or_15_pos (negsuc n) e = ground arith

  -- `Load`, with the server's port and the CPU threshold of nodes printed into the environment: it
  -- fails with the file's error or with the parser's, each under a text of its own; it panics; or it
  -- returns a configuration in which no timeout is zero, each percentage is its threshold, and the
  -- port and the threshold are those of the environment, whatever the file says.
  pub load_lem :
      (port threshold : ℤ) (file : Result String) (parse : String → Result (Config F))
      → env "SERVER_PORT" ≡ show_ℤ port
      → FitsInt port
      → env "ALERT_NODE_CPU_THRESHOLD" ≡ show_ℤ threshold
      → FitsInt threshold
      → Loading port threshold file parse
  unfolding load
  load_lem port threshold (err e) parse p fp t ft = inl (e, refl, refl)
  load_lem port threshold panics parse p fp t ft = inr (inr (inr refl))
  load_lem port threshold (ok text) parse p fp t ft = from_parsed (parse text) refl
    where
      from_parsed :
          (r : Result (Config F)) → parse text ≡ r → Loading port threshold (ok text) parse
      from_parsed (ok c) q = inr (
          inr (
            inl (
              text,
              c,
              finish of_int env c,
              refl,
              q,
              rw q refl,
              finish-IsComplete c port threshold p fp t ft,
            )))
      from_parsed (err e) q = inr (inl (text, e, refl, q, rw q refl))
      from_parsed panics q = inr (inr (inr (rw q refl)))
