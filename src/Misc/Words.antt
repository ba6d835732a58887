-- ===== src/Misc/Words.antt =====
-- `ip_parse_arg` of src/misc.c cuts a text into its words.
use ipstat.Base.{
  ℕ, zero, suc, ◌+◌, ◌≤◌, ◌<◌, ◌≡◌, refl, ◌∙◌, ◌⊎◌, inl, inr, true, false, Option, none, some, List,
  [], ◌∷◌, ◌++◌, ltb, leb, length, length-append, take, if◌then◌else◌, ◌>>=◌, arith, Bool-cases,
}
use mathlib.Core.List.{append-nil, append_assoc}
use ipstat.Misc.{one_of, skip_delim, cut, ip_strtok_r, store_arg, parse_loop, ip_parse_arg}

-- A word in front of words, unless it is empty.
abbrev put : List ℕ → List (List ℕ) → List (List ℕ)
put [] ws = ws
put (c ∷ w) ws = (c ∷ w) ∷ ws

-- The run of bytes before the first delimiter, and the words after it.
abbrev pub runs : List ℕ → List ℕ → List ℕ × List (List ℕ)
runs delim [] = ([], [])
runs delim (c ∷ s) =
    let (w, ws) = runs delim s in if one_of delim c then ([], put w ws) else (c ∷ w, ws)

-- The longest runs of bytes that are no delimiters, without the empty ones.
abbrev pub words : List ℕ → List ℕ → List (List ℕ)
words delim s = let (w, ws) = runs delim s in put w ws

module _ (delim : List ℕ) where
  runs-cut :
      (s : List ℕ)
      → let (token, rest) = cut delim s in
        (runs delim s ≡ (token, words delim rest)) × (length rest ≤ length s)
  unfolding cut
  runs-cut [] = (refl, omega arith)
  runs-cut (c ∷ s) = elim (Bool-cases (one_of delim c)) [
    | inl e ↦ rw e (refl, omega arith)
    | inr e ↦ let (r, l) = runs-cut s in rw e (rw r refl, omega (arith, l))
  ]

  words-skip : (s : List ℕ) → words delim s ≡ words delim (skip_delim delim s)
  unfolding skip_delim
  words-skip [] = refl
  words-skip (c ∷ s) = elim (Bool-cases (one_of delim c)) [
    | inl e ↦ rw (e, skip_delim) (words-skip s)
    | inr e ↦ rw (e, skip_delim) (rw e refl)
  ]

  -- What skipping leaves: nothing, or a text that starts with no delimiter.
  Rest : List ℕ → List ℕ → Type 0
  Rest s r =
      (r ≡ [])
      ⊎ ((c : ℕ) × (t : List ℕ) × (r ≡ c ∷ t) × (one_of delim c ≡ false) × (length t < length s))

  skip-Rest : (s : List ℕ) → Rest s (skip_delim delim s)
  unfolding skip_delim Rest
  skip-Rest [] = inl refl
  skip-Rest (c ∷ s) = elim (Bool-cases (one_of delim c)) [
    | inr e ↦ rw (e, skip_delim) (inr (c, s, refl, e, omega arith))
    | inl e ↦
        rw (e, skip_delim)
          (elim (skip-Rest s) [
            | inl f ↦ inl f
            | inr (d, t, f, g, l) ↦ inr (d, t, f, g, omega (arith, l))
          ])
  ]

  -- What a call of `ip_strtok_r` returns of a text: its first word and the rest of its words.
  Token : List ℕ → Option (List ℕ) × List ℕ → Type 0
  Token s (token, rest) =
      ((token ≡ none) × (words delim s ≡ []))
      ⊎ ((w : List ℕ) × (token ≡ some w)
          × (words delim s ≡ w ∷ words delim rest)
          × (length rest < length s))

  ip_strtok_r-Token : (s : List ℕ) → Token s (ip_strtok_r delim s)
  unfolding ip_strtok_r Token Rest cut
  ip_strtok_r-Token s = elim (skip-Rest s) [
    | inl e ↦ inl (rw e refl, words-skip s ∙ rw e refl)
    | inr (c, t, e, f, l) ↦
        let (r, b) = runs-cut t in
        inr (
          c ∷ (cut delim t).0,
          rw (e, ip_strtok_r, f) refl,
          words-skip s ∙ rw (e, ip_strtok_r, f) (rw r refl),
          rw (e, ip_strtok_r, f) (omega (arith, b, l)),
        )
  ]

-- The words that find a place: `argv` is filled until `max_tok` is passed.
unfoldable fill : ℕ → ℕ → List (List ℕ) → List (List ℕ) → Option (List (List ℕ))
fill size max_tok argv [] = some argv
fill size max_tok argv (w ∷ ws) =
    if ltb max_tok (length argv)
    then some argv
    else store_arg size argv w >>= (λ argv'. fill size max_tok argv' ws)

-- `take` of what fits.
abbrev fits : ℕ → ℕ → List (List ℕ) → List (List ℕ) → Option (List (List ℕ))
fits size room argv ws =
    if leb (length argv + length (take room ws)) size then some (argv ++ take room ws) else none

bind_ext :
    {A B : Type 0} (m : Option A) (f g : A → Option B) → ((a : A) → f a ≡ g a) → m >>= f ≡ m >>= g
bind_ext none f g h = refl
bind_ext (some a) f g h = h a

module _ (size max_tok : ℕ) where
  fill_full :
      (argv ws : List (List ℕ))
      → length argv ≤ size
      → suc max_tok ≤ length argv
      → fill size max_tok argv ws ≡ some argv
  unfolding fill
  fill_full argv [] l m = refl
  fill_full argv (w ∷ ws) l m = ground arith

  fill-fits :
      (room : ℕ) (argv ws : List (List ℕ))
      → length argv ≤ size
      → room + length argv ≡ suc max_tok
      → fill size max_tok argv ws ≡ fits size room argv ws
  unfolding fill
  fill-fits zero argv ws l m =
      let b : leb (length argv + 0) size ≡ true = ground (arith, l) in
      let f = fill_full argv ws l (omega (arith, m)) in rw (f, b, append-nil argv) refl
  fill-fits (suc room) argv [] l m =
      let b : leb (length argv + 0) size ≡ true = ground (arith, l) in rw (b, append-nil argv) refl
  fill-fits (suc room) argv (w ∷ ws) l m =
      let a : ltb max_tok (length argv) ≡ false = ground (arith, m) in
      let n = length-append argv (w ∷ []) in
      elim (Bool-cases (ltb (length argv) size)) [
        | inl e ↦
            let h =
              fill-fits room (argv ++ (w ∷ [])) ws (ground (arith, n)) (omega (arith, n, m)) in
            let q : length (argv ++ (w ∷ [])) + length (take room ws)
                ≡ length argv + suc (length (take room ws)) =
              omega (arith, n) in
            rw (a, e) (h ∙ rw (q, append_assoc argv (w ∷ []) (take room ws)) refl)
        | inr e ↦
            let b : leb (length argv + suc (length (take room ws))) size ≡ false = ground arith in
            rw (a, e, b) refl
      ]

  parse_loop-fill :
      (delim : List ℕ) (turns : ℕ) (argv : List (List ℕ)) (buf_ptr : List ℕ)
      → length buf_ptr ≤ turns
      → parse_loop size max_tok delim turns argv buf_ptr
        ≡ fill size max_tok argv (words delim buf_ptr)
  unfolding parse_loop fill Token
  parse_loop-fill delim zero argv [] l = refl
  parse_loop-fill delim zero argv (c ∷ s) l = absurd (omega (arith, l))
  parse_loop-fill delim (suc turns) argv buf_ptr l = elim (ip_strtok_r-Token delim buf_ptr) [
    | inl (e, f) ↦ rw (parse_loop, e, f) refl
    | inr (w, e, f, b) ↦
        let h = λ (argv' : List (List ℕ)).
          parse_loop-fill delim turns argv' (ip_strtok_r delim buf_ptr).1 (omega (arith, b, l)) in
        elim (Bool-cases (ltb max_tok (length argv))) [
          | inl c ↦ rw (parse_loop, e, f) (rw c refl)
          | inr c ↦ rw (parse_loop, e, f) (rw c (bind_ext (store_arg size argv w) _ _ h))
        ]
  ]

  -- `ip_parse_arg` stores the first words of the text, at most one more than `max_tok`, in order, if
  -- the array has room for so many; if not, it writes behind the end of the array. The words are the
  -- longest runs of bytes that are no delimiters, without the empty ones.
  pub ip_parse_arg-words :
      (delim buffer : List ℕ)
      → let ts = take (suc max_tok) (words delim buffer) in
        ip_parse_arg size buffer max_tok delim ≡ (if leb (length ts) size then some ts else none)
  unfolding ip_parse_arg Token fill
  ip_parse_arg-words delim [] = let b : leb 0 size ≡ true = ground arith in rw b refl
  ip_parse_arg-words delim (c ∷ s) = elim (ip_strtok_r-Token delim (c ∷ s)) [
    | inl (e, f) ↦ let b : leb 0 size ≡ true = ground arith in rw (ip_parse_arg, e, f) (rw b refl)
    | inr (w, e, f, l) ↦
        let rest = (ip_strtok_r delim (c ∷ s)).1 in
        let h =
          λ (argv' : List (List ℕ)). parse_loop-fill delim (length rest) argv' rest (omega arith) in
        let a : ltb max_tok 0 ≡ false = ground arith in
        let k = fill-fits (suc max_tok) [] (w ∷ words delim rest) (omega arith) (omega arith) in
        let z : (n : ℕ) → 0 + n ≡ n = λ n. omega arith in
        let k = rw (a, z _) at k in
        rw (ip_parse_arg, e, f) (bind_ext (store_arg size [] w) _ _ h ∙ k)
  ]
