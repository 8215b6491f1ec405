-- ===== src/Copy/Shell.antt =====
-- internal/sshkey/copy.go: the guest's commands, and how a POSIX shell reads a quoted word.
use fleetbox.Base.{
  ℕ, ◌≡◌, refl, sym, ap, ◌∙◌, inl, inr, Bool, true, false, Option, none, some, List, [], ◌∷◌, ◌++◌,
  append_assoc, append-nil, arith, ◌==◌, if◌then◌else◌, ==_iff, Bool-cases, any,
}
use fleetbox.Base.Text.{Text, codes}

-- `strings.ReplaceAll(s, "'", "'\\''")`
escape_quotes : Text → Text
escape_quotes [] = []
escape_quotes (c ∷ s) = if c == b'\'' then codes "'\\''" ++ escape_quotes s else c ∷ escape_quotes s

-- `shellQuote`
shell_quote : Text → Text
shell_quote s = codes "'" ++ escape_quotes s ++ codes "'"

-- `copyToCmd`, from the directory of the path.
pub copy_to_cmd : Text → Text
copy_to_cmd dir =
    codes "mkdir -p "
    ++ shell_quote dir
    ++ codes " && tar -x -f - -p --no-same-owner -C "
    ++ shell_quote dir

-- `copyFromCmd`, from the directory and the last element of the path.
pub copy_from_cmd : Text → Text → Text
copy_from_cmd dir base = codes "tar -c -f - -C " ++ shell_quote dir ++ codes " " ++ shell_quote base

-- How a POSIX shell reads a command: between words, within a word, within single quotes, or after a
-- backslash.
pub data Mode : Type 0 where
  between plain quoted escaped : Mode

-- An argument, or a `&` that no quote covers.
pub data Token : Type 0 where
  arg : Text → Token
  amp : Token

-- The bytes that mean something else to a shell unless they are quoted.
is_special : ℕ → Bool
is_special c = any (λ x. x == c) (codes "|;<>()$`\"*?[]#~=%{}!" ++ 10 ∷ 9 ∷ [])

rev_onto : Text → Text → Text
rev_onto [] b = b
rev_onto (c ∷ a) b = rev_onto a (c ∷ b)

abbrev consed : Token → Option (List Token) → Option (List Token)
consed t none = none
consed t (some ts) = some (t ∷ ts)

abbrev ended : Text → Option (List Token) → Option (List Token)
ended cur r = consed (arg (rev_onto cur [])) r

-- The tokens of a command, with the bytes of the word that is read, the last first. It is `none` if the
-- command is more than words and `&`.
pub tokens : Mode → Text → Text → Option (List Token)
tokens between cur [] = some []
tokens between cur (c ∷ s) = elim (c == b' ') [
  | true ↦ tokens between [] s
  | false ↦ elim (c == b'&') [
    | true ↦ consed amp (tokens between [] s)
    | false ↦ elim (c == b'\'') [
      | true ↦ tokens quoted [] s
      | false ↦ elim (c == b'\\') [
        | true ↦ tokens escaped [] s
        | false ↦ elim (is_special c) [ true ↦ none | false ↦ tokens plain (c ∷ []) s ]
      ]
    ]
  ]
]
tokens plain cur [] = some (arg (rev_onto cur []) ∷ [])
tokens plain cur (c ∷ s) = elim (c == b' ') [
  | true ↦ ended cur (tokens between [] s)
  | false ↦ elim (c == b'&') [
    | true ↦ ended cur (consed amp (tokens between [] s))
    | false ↦ elim (c == b'\'') [
      | true ↦ tokens quoted cur s
      | false ↦ elim (c == b'\\') [
        | true ↦ tokens escaped cur s
        | false ↦ elim (is_special c) [ true ↦ none | false ↦ tokens plain (c ∷ cur) s ]
      ]
    ]
  ]
]
tokens quoted cur [] = none
tokens quoted cur (c ∷ s) = elim (c == b'\'') [
  | true ↦ tokens plain cur s
  | false ↦ tokens quoted (c ∷ cur) s
]
tokens escaped cur [] = none
tokens escaped cur (c ∷ s) = tokens plain (c ∷ cur) s

rev_onto-rev_onto : (a b c : Text) → rev_onto (rev_onto a b) c ≡ rev_onto b (a ++ c)
unfolding rev_onto
rev_onto-rev_onto [] b c = refl
rev_onto-rev_onto (x ∷ a) b c = rev_onto-rev_onto a (x ∷ b) c

append-cons : (a : Text) (c : ℕ) (s : Text) → (a ++ c ∷ []) ++ s ≡ a ++ c ∷ s
append-cons a c s = append_assoc a (c ∷ []) s

tokens-quoted :
    (c : ℕ) (cur s : Text)
    → (c == b'\'') ≡ false
    → tokens quoted cur (c ∷ s) ≡ tokens quoted (c ∷ cur) s
unfolding tokens
tokens-quoted c cur s e = ground arith

-- Within quotes, an escaped text and a quote read as that text.
tokens-escape_quotes :
    (a cur rest : Text)
    → tokens quoted cur (escape_quotes a ++ b'\'' ∷ rest) ≡ tokens plain (rev_onto a cur) rest
unfolding tokens escape_quotes rev_onto is_special
tokens-escape_quotes [] cur rest = refl
tokens-escape_quotes (c ∷ a) cur rest = elim (Bool-cases (c == b'\'')) [
  | inl e ↦
      let q : c ≡ b'\'' = (==_iff _ _).0 e in rw (e, q) (tokens-escape_quotes a (b'\'' ∷ cur) rest)
  | inr e ↦ rw e (
      tokens-quoted c cur (escape_quotes a ++ b'\'' ∷ rest) e
      ∙ tokens-escape_quotes a (c ∷ cur) rest)
]

tokens-shell_quote :
    (a rest : Text) → tokens between [] (shell_quote a ++ rest) ≡ tokens plain (rev_onto a []) rest
unfolding shell_quote tokens is_special
tokens-shell_quote a rest =
    ap (tokens quoted []) (append-cons (escape_quotes a) (b'\'') rest)
    ∙ tokens-escape_quotes a [] rest

word_back : (a : Text) → rev_onto (rev_onto a []) [] ≡ a
unfolding rev_onto
word_back a = rev_onto-rev_onto a [] [] ∙ append-nil a

-- The argument that a text is quoted to, at the end of a command and before a space.
tokens-last : (a : Text) → tokens between [] (shell_quote a) ≡ some (arg a ∷ [])
unfolding tokens
tokens-last a =
    ap (tokens between []) (sym (append-nil (shell_quote a)))
    ∙ tokens-shell_quote a []
    ∙ ap (λ w. some (arg w ∷ [])) (word_back a)

tokens-space :
    (a rest : Text)
    → tokens between [] (shell_quote a ++ b' ' ∷ rest) ≡ consed (arg a) (tokens between [] rest)
unfolding tokens
tokens-space a rest =
    tokens-shell_quote a (b' ' ∷ rest)
    ∙ ap (λ w. consed (arg w) (tokens between [] rest)) (word_back a)

-- The command that a copy from the guest runs there is read by a POSIX shell as the words `tar -c -f - -C`,
-- the directory and the name, whatever bytes these two hold: quoting leaves no way out of an argument.
tokens-copy_from_cmd :
    (dir base : Text)
    → tokens between [] (copy_from_cmd dir base)
      ≡ some (
          arg (codes "tar")
          ∷ arg (codes "-c")
          ∷ arg (codes "-f")
          ∷ arg (codes "-")
          ∷ arg (codes "-C")
          ∷ arg dir
          ∷ arg base
          ∷ [])
unfolding copy_from_cmd tokens is_special rev_onto
tokens-copy_from_cmd dir base =
    ap
      (λ r. consed (arg (codes "tar")) (
        consed (arg (codes "-c"))
          (consed (arg (codes "-f")) (consed (arg (codes "-")) (consed (arg (codes "-C")) r)))))
      (ap (tokens between []) (append_assoc (shell_quote dir) (codes " ") (shell_quote base))
        ∙ tokens-space dir (shell_quote base)
        ∙ ap (consed (arg dir)) (tokens-last base))

-- The words before the second directory.
abbrev extracting : Option (List Token) → Option (List Token)
extracting r = consed (arg (codes "tar")) (
    consed (arg (codes "-x")) (
      consed (arg (codes "-f")) (
        consed (arg (codes "-")) (
          consed (arg (codes "-p"))
            (consed (arg (codes "--no-same-owner")) (consed (arg (codes "-C")) r))))))

-- The command that a copy to the guest runs there is read as `mkdir -p` on the directory, `&&`, and
-- `tar -x -f - -p --no-same-owner -C` on the directory, whatever bytes it holds.
tokens-copy_to_cmd :
    (dir : Text)
    → tokens between [] (copy_to_cmd dir)
      ≡ some (
          arg (codes "mkdir")
          ∷ arg (codes "-p")
          ∷ arg dir
          ∷ amp
          ∷ amp
          ∷ arg (codes "tar")
          ∷ arg (codes "-x")
          ∷ arg (codes "-f")
          ∷ arg (codes "-")
          ∷ arg (codes "-p")
          ∷ arg (codes "--no-same-owner")
          ∷ arg (codes "-C")
          ∷ arg dir
          ∷ [])
unfolding copy_to_cmd tokens is_special rev_onto
tokens-copy_to_cmd dir =
    ap (λ r. consed (arg (codes "mkdir")) (consed (arg (codes "-p")) r))
      (ap (tokens between []) (
          append_assoc (shell_quote dir) (codes " && tar -x -f - -p --no-same-owner -C ")
            (shell_quote dir))
        ∙ tokens-space dir (codes "&& tar -x -f - -p --no-same-owner -C " ++ shell_quote dir)
        ∙ ap (λ r. consed (arg dir) (consed amp (consed amp (extracting r)))) (tokens-last dir))

-- A POSIX shell reads the command of a copy from the guest as the words `tar -c -f - -C`, the directory and the
-- name, and the command of a copy to the guest as `mkdir -p` on the directory, `&&`, and `tar -x -f - -p
-- --no-same-owner -C` on the directory, whatever bytes these hold: no path ends its argument.
pub tokens-copy_cmds :
    (dir base : Text)
    → (tokens between [] (copy_from_cmd dir base)
        ≡ some (
            arg (codes "tar")
            ∷ arg (codes "-c")
            ∷ arg (codes "-f")
            ∷ arg (codes "-")
            ∷ arg (codes "-C")
            ∷ arg dir
            ∷ arg base
            ∷ []))
      × (tokens between [] (copy_to_cmd dir)
          ≡ some (
              arg (codes "mkdir")
              ∷ arg (codes "-p")
              ∷ arg dir
              ∷ amp
              ∷ amp
              ∷ arg (codes "tar")
              ∷ arg (codes "-x")
              ∷ arg (codes "-f")
              ∷ arg (codes "-")
              ∷ arg (codes "-p")
              ∷ arg (codes "--no-same-owner")
              ∷ arg (codes "-C")
              ∷ arg dir
              ∷ []))
tokens-copy_cmds dir base = (tokens-copy_from_cmd dir base, tokens-copy_to_cmd dir)
