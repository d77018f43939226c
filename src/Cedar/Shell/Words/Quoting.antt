-- ===== src/Cedar/Shell/Words/Quoting.antt =====
-- Quote removal undoes quoting.
use sondera_coding_agent_hoo.Prelude.{
  ℕ, ◌≡◌, ◌≢◌, refl, ap, ◌∙◌, inl, inr, Bool, Bool-cases, true, false, List, [], ◌∷◌, ◌==◌, arith,
  if◌then◌else◌,
}
use sondera_coding_agent_hoo.Prelude.Text.{Text}
use sondera_coding_agent_hoo.Cedar.Shell.Words.{
  backslash, newline, unescape_unquoted_word, unescape_double_quoted,
}

-- How a shell user writes a text with no quotes: a backslash before every character but a newline.
pub quote_unquoted : Text → Text
quote_unquoted [] = []
quote_unquoted (c ∷ s) =
    if c == newline then c ∷ quote_unquoted s else backslash ∷ c ∷ quote_unquoted s

-- What the inside of double quotes is made of: a character that is no backslash; a backslash and the
-- character that it escapes, one of the four of the shell grammar; a line that goes on behind a
-- backslash; and a backslash that is kept, before any other character.
pub data Piece : Type 0 where
  plain : (c : ℕ) → c ≢ backslash → Piece
  escaped_quote escaped_backslash escaped_dollar escaped_backtick joined_line : Piece
  kept : (c : ℕ) → c ≢ b'"' → c ≢ backslash → c ≢ b'$' → c ≢ b'`' → c ≢ newline → Piece

-- How the pieces are written, and what they say. A lone backslash may stand at the end.
pub written : List Piece → Bool → Text
written [] false = []
written [] true = backslash ∷ []
written (plain c _ ∷ ps) lone = c ∷ written ps lone
written (escaped_quote ∷ ps) lone = backslash ∷ b'"' ∷ written ps lone
written (escaped_backslash ∷ ps) lone = backslash ∷ backslash ∷ written ps lone
written (escaped_dollar ∷ ps) lone = backslash ∷ b'$' ∷ written ps lone
written (escaped_backtick ∷ ps) lone = backslash ∷ b'`' ∷ written ps lone
written (joined_line ∷ ps) lone = backslash ∷ newline ∷ written ps lone
written (kept c _ _ _ _ _ ∷ ps) lone = backslash ∷ c ∷ written ps lone

pub meaning : List Piece → Bool → Text
meaning [] false = []
meaning [] true = backslash ∷ []
meaning (plain c _ ∷ ps) lone = c ∷ meaning ps lone
meaning (escaped_quote ∷ ps) lone = b'"' ∷ meaning ps lone
meaning (escaped_backslash ∷ ps) lone = backslash ∷ meaning ps lone
meaning (escaped_dollar ∷ ps) lone = b'$' ∷ meaning ps lone
meaning (escaped_backtick ∷ ps) lone = b'`' ∷ meaning ps lone
meaning (joined_line ∷ ps) lone = meaning ps lone
meaning (kept c _ _ _ _ _ ∷ ps) lone = backslash ∷ c ∷ meaning ps lone

unquoted_nil : unescape_unquoted_word [] ≡ []
unfolding unescape_unquoted_word
unquoted_nil = refl

unquoted_step :
    (c : ℕ) (s : Text)
    → c ≢ backslash
    → unescape_unquoted_word (c ∷ s) ≡ c ∷ unescape_unquoted_word s
unfolding unescape_unquoted_word
unquoted_step c [] h = ground arith
unquoted_step c (n ∷ s) h = ground arith

double_step :
    (c : ℕ) (s : Text)
    → c ≢ backslash
    → unescape_double_quoted (c ∷ s) ≡ c ∷ unescape_double_quoted s
unfolding unescape_double_quoted
double_step c [] h = ground arith
double_step c (n ∷ s) h = ground arith

unquoted_escape :
    (c : ℕ) (s : Text)
    → c ≢ newline
    → unescape_unquoted_word (backslash ∷ c ∷ s) ≡ c ∷ unescape_unquoted_word s
unfolding unescape_unquoted_word
unquoted_escape c s h = ground arith

double_kept :
    (c : ℕ) (s : Text)
    → c ≢ b'"'
    → c ≢ backslash
    → c ≢ b'$'
    → c ≢ b'`'
    → c ≢ newline
    → unescape_double_quoted (backslash ∷ c ∷ s) ≡ backslash ∷ c ∷ unescape_double_quoted s
unfolding unescape_double_quoted
double_kept c s h i j k l = ground arith

-- The literal text of a word that was quoted by backslashes is the text itself.
pub unescape_unquoted_word-quote_unquoted :
    (s : Text) → unescape_unquoted_word (quote_unquoted s) ≡ s
unfolding quote_unquoted
unescape_unquoted_word-quote_unquoted [] = unquoted_nil
unescape_unquoted_word-quote_unquoted (c ∷ s) = elim (Bool-cases (c == newline)) [
  | inl e ↦ rw e (
      unquoted_step c (quote_unquoted s) (ground arith)
      ∙ ap (λ t. c ∷ t) (unescape_unquoted_word-quote_unquoted s))
  | inr e ↦ rw e (
      unquoted_escape c (quote_unquoted s) (ground arith)
      ∙ ap (λ t. c ∷ t) (unescape_unquoted_word-quote_unquoted s))
]

-- The literal text of a double-quoted string is what its pieces say: a backslash disappears before
-- a double quote, a backslash, a dollar sign and a backtick, which stay, and together with a newline
-- behind it; before every other character, and at the end, it stays.
pub unescape_double_quoted-written :
    (ps : List Piece) (lone : Bool) → unescape_double_quoted (written ps lone) ≡ meaning ps lone
unfolding unescape_double_quoted written meaning
unescape_double_quoted-written [] false = refl
unescape_double_quoted-written [] true = refl
unescape_double_quoted-written (plain c n ∷ ps) lone =
    double_step c (written ps lone) n ∙ ap (λ t. c ∷ t) (unescape_double_quoted-written ps lone)
unescape_double_quoted-written (escaped_quote ∷ ps) lone =
    ap (λ t. b'"' ∷ t) (unescape_double_quoted-written ps lone)
unescape_double_quoted-written (escaped_backslash ∷ ps) lone =
    ap (λ t. backslash ∷ t) (unescape_double_quoted-written ps lone)
unescape_double_quoted-written (escaped_dollar ∷ ps) lone =
    ap (λ t. b'$' ∷ t) (unescape_double_quoted-written ps lone)
unescape_double_quoted-written (escaped_backtick ∷ ps) lone =
    ap (λ t. b'`' ∷ t) (unescape_double_quoted-written ps lone)
unescape_double_quoted-written (joined_line ∷ ps) lone = unescape_double_quoted-written ps lone
unescape_double_quoted-written (kept c h i j k l ∷ ps) lone =
    double_kept c (written ps lone) h i j k l
    ∙ ap (λ t. backslash ∷ c ∷ t) (unescape_double_quoted-written ps lone)
