-- ===== src/Remote/Quote/Words.antt =====
-- ShellQuote of internal/remote/provision.go and the reader of shell words of Remote.Quote.
use slush.Base.{
  ℕ, true, false, Option, none, some, List, [], ◌∷◌, ◌++◌, ◌≡◌, refl, sym, ap, ◌∙◌, arith, ◌==◌,
  all, append-nil, append_assoc, map,
}
use slush.Remote.Quote.{
  quote_mark, shell_quote, is_literal, append_to, finished, unquoted, quoted, words_from,
  shell_words,
}
use slush.Text.{Bytes, codes, has_prefix, replace_from, join}

-- The text between the quotes is read back.
words_from-replace :
    (s rest cur : Bytes) (done : List Bytes)
    → words_from
        (replace_from s (quote_mark ∷ []) (codes "'\\''") 0 ++ quote_mark ∷ rest)
        quoted
        (some cur)
        done
      ≡ words_from rest unquoted (some (cur ++ s)) done
unfolding words_from replace_from has_prefix
words_from-replace [] rest cur done = rw append-nil
words_from-replace (c ∷ s) rest cur done =
    ground (arith, words_from-replace s rest (cur ++ c ∷ []) done, append_assoc cur (c ∷ []) s)

pub words_from-shell_quote :
    (s rest : Bytes) (done : List Bytes)
    → words_from (shell_quote s ++ rest) unquoted none done ≡ words_from rest unquoted (some s) done
unfolding shell_quote words_from
words_from-shell_quote s rest done = rw append_assoc (words_from-replace s rest [] done)

is_literal-plain :
    (c : ℕ)
    → is_literal c ≡ true
    → ((c == b' ') ≡ false) × ((c == quote_mark) ≡ false) × ((c == b'\\') ≡ false)
unfolding is_literal
is_literal-plain c h = (ground arith, ground arith, ground arith)

words_from_literal :
    (c : ℕ) (s : Bytes) (cur : Option Bytes) (done : List Bytes)
    → is_literal c ≡ true
    → words_from (c ∷ s) unquoted cur done ≡ words_from s unquoted (append_to cur c) done
unfolding words_from
words_from_literal c s cur done h = let (a, b, d) = is_literal-plain c h in rw (a, b, d, h)

words_from-literals :
    (s rest cur : Bytes) (done : List Bytes)
    → all is_literal s ≡ true
    → words_from (s ++ rest) unquoted (some cur) done
      ≡ words_from rest unquoted (some (cur ++ s)) done
words_from-literals [] rest cur done h = rw append-nil
words_from-literals (c ∷ s) rest cur done h = rw (
  words_from_literal c (s ++ rest) (some cur) done (ground arith),
  words_from-literals s rest (cur ++ c ∷ []) done (ground arith),
  append_assoc,
)

-- An unquoted word of literal characters.
words_from-word :
    (c : ℕ) (s rest : Bytes) (done : List Bytes)
    → all is_literal (c ∷ s) ≡ true
    → words_from (c ∷ (s ++ rest)) unquoted none done ≡ words_from rest unquoted (some (c ∷ s)) done
words_from-word c s rest done h = rw (
  words_from_literal c (s ++ rest) none done (ground arith),
  words_from-literals s rest (c ∷ []) done (ground arith),
)

pub words_from_blank :
    (s : Bytes) (cur : Option Bytes) (done : List Bytes)
    → words_from (b' ' ∷ s) unquoted cur done ≡ words_from s unquoted none (done ++ finished cur)
unfolding words_from
words_from_blank s cur done = refl

pub words_from-quoted_list :
    (args done : List Bytes)
    → words_from (join (map shell_quote args) (codes " ")) unquoted none done ≡ some (done ++ args)
unfolding join
words_from-quoted_list [] done = unfold words_from in refl
words_from-quoted_list (a ∷ []) done =
    ap (λ t. words_from t unquoted none done) (sym (append-nil (shell_quote a)))
    ∙ words_from-shell_quote a [] done
    ∙ unfold words_from in refl
words_from-quoted_list (a ∷ b ∷ args) done =
    words_from-shell_quote a (b' ' ∷ join (map shell_quote (b ∷ args)) (codes " ")) done
    ∙ words_from_blank (join (map shell_quote (b ∷ args)) (codes " ")) (some a) done
    ∙ words_from-quoted_list (b ∷ args) (done ++ a ∷ [])
    ∙ ap some (append_assoc done (a ∷ []) (b ∷ args))

-- Whatever bytes the arguments hold, the shell reads their quotes, with blanks between them, as just
-- these arguments.
pub shell_words-shell_quote :
    (args : List Bytes) → shell_words (join (map shell_quote args) (codes " ")) ≡ some args
unfolding shell_words
shell_words-shell_quote args = words_from-quoted_list args []

-- The same in front of a blank and a rest.
pub words_from-quoted_list_blank :
    (args : List Bytes) (rest : Bytes) (done : List Bytes)
    → words_from (join (map shell_quote args) (codes " ") ++ b' ' ∷ rest) unquoted none done
      ≡ words_from rest unquoted none (done ++ args)
unfolding join
words_from-quoted_list_blank [] rest done = words_from_blank rest none done
words_from-quoted_list_blank (a ∷ []) rest done =
    words_from-shell_quote a (b' ' ∷ rest) done ∙ words_from_blank rest (some a) done
words_from-quoted_list_blank (a ∷ b ∷ args) rest done =
    let tail = join (map shell_quote (b ∷ args)) (codes " ") in
    ap (λ t. words_from t unquoted none done)
      (append_assoc (shell_quote a) (b' ' ∷ tail) (b' ' ∷ rest))
    ∙ words_from-shell_quote a (b' ' ∷ (tail ++ b' ' ∷ rest)) done
    ∙ words_from_blank (tail ++ b' ' ∷ rest) (some a) done
    ∙ words_from-quoted_list_blank (b ∷ args) rest (done ++ a ∷ [])
    ∙ ap (words_from rest unquoted none) (append_assoc done (a ∷ []) (b ∷ args))

-- An unquoted word of literal characters in front of a blank, or at the end.
pub words_from-word_blank :
    (c : ℕ) (s rest : Bytes) (done : List Bytes)
    → all is_literal (c ∷ s) ≡ true
    → words_from (c ∷ (s ++ b' ' ∷ rest)) unquoted none done
      ≡ words_from rest unquoted none (done ++ (c ∷ s) ∷ [])
words_from-word_blank c s rest done h =
    words_from-word c s (b' ' ∷ rest) done h ∙ words_from_blank rest (some (c ∷ s)) done

pub words_from-word_end :
    (c : ℕ) (s : Bytes) (done : List Bytes)
    → all is_literal (c ∷ s) ≡ true
    → words_from (c ∷ s) unquoted none done ≡ some (done ++ (c ∷ s) ∷ [])
words_from-word_end c s done h =
    ap (λ t. words_from (c ∷ t) unquoted none done) (sym (append-nil s))
    ∙ words_from-word c s [] done h
    ∙ unfold words_from in refl
