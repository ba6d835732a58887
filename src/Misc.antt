-- ===== src/Misc.antt =====
-- `ip_parse_arg` and `ip_strtok_r` of src/misc.c, which cut a line of a proxy into arguments. A text
-- is the list of its bytes, without the closing zero, and a pointer into it is what is left of it.
mod Words
mod Examples
use ipstat.Base.{
  ℕ, zero, suc, Bool, true, false, ◌||◌, Option, none, some, List, [], ◌∷◌, ◌++◌, ◌==◌, ltb, leb,
  length, if◌then◌else◌, ◌>>=◌,
}

-- Whether a byte is one of the delimiters.
abbrev pub one_of : List ℕ → ℕ → Bool
one_of [] c = false
one_of (x ∷ delim) c = (c == x) || one_of delim c

-- The pointer `s + strspn(s, delim)`.
unfoldable pub skip_delim : List ℕ → List ℕ → List ℕ
skip_delim delim [] = []
skip_delim delim (c ∷ s) = if one_of delim c then skip_delim delim s else c ∷ s

-- What stands before the byte that `strpbrk` finds, and the pointer to what stands after it; without
-- such a byte, all of the text and the pointer to its end.
unfoldable pub cut : List ℕ → List ℕ → List ℕ × List ℕ
cut delim [] = ([], [])
cut delim (c ∷ s) =
    let (token, save_ptr) = cut delim s in if one_of delim c then ([], s) else (c ∷ token, save_ptr)

abbrev pub token_of : List ℕ → List ℕ → Option (List ℕ) × List ℕ
token_of delim [] = (none, [])
token_of delim (c ∷ s) = let (token, save_ptr) = cut delim (c ∷ s) in (some token, save_ptr)

-- The token, and the new value of `*save_ptr`.
unfoldable pub ip_strtok_r : List ℕ → List ℕ → Option (List ℕ) × List ℕ
ip_strtok_r delim s = token_of delim (skip_delim delim s)

-- `argv[i++] = strdup(ptr)` for an array of `size` pointers: `none` is a write behind its end.
abbrev pub store_arg : ℕ → List (List ℕ) → List ℕ → Option (List (List ℕ))
store_arg size argv ptr = if ltb (length argv) size then some (argv ++ (ptr ∷ [])) else none

-- The loop, with as many turns as there are bytes; `i` is the length of `argv`.
unfoldable pub parse_loop : ℕ → ℕ → List ℕ → ℕ → List (List ℕ) → List ℕ → Option (List (List ℕ))
parse_loop size max_tok delim zero argv buf_ptr = some argv
parse_loop size max_tok delim (suc turns) argv buf_ptr =
    let (token, rest) = ip_strtok_r delim buf_ptr in
    elim token [
      | none ↦ some argv
      | some ptr ↦
          if ltb max_tok (length argv)
          then some argv
          else (do argv' ← store_arg size argv ptr; parse_loop size max_tok delim turns argv' rest)
    ]

-- The arguments; `*argc` is how many there are.
unfoldable pub ip_parse_arg :
    (size : ℕ) (buffer : List ℕ) (max_tok : ℕ) (delim : List ℕ) → Option (List (List ℕ))
unfolding parse_loop
ip_parse_arg size [] max_tok delim = some []
ip_parse_arg size (c ∷ s) max_tok delim =
    let (token, buf_ptr) = ip_strtok_r delim (c ∷ s) in
    elim token [
      | none ↦ some []
      | some ptr ↦ (do
        argv ← store_arg size [] ptr
        parse_loop size max_tok delim (length buf_ptr) argv buf_ptr)
    ]
