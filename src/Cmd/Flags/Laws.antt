-- ===== src/Cmd/Flags/Laws.antt =====
-- What `gjfy server` makes of its command line.
use onetimelink.Prelude.{Bool, List, Option, ◌≡◌, ◌∷◌, [], ◌++◌, some, true, false, refl, none, ◌∙◌}
use onetimelink.Prelude.Flag.{
  parse, parse_from, read_argument, operand, next_step, read_name, find_flag, cut_value, apply_flag,
  assign, parse_bool, one_of,
}
use onetimelink.Cmd.Flags.{server_flags}
use onetimelink.Cmd.Server.{Flags}
use onetimelink.Prelude.Text.{Bytes, utf8, rune_bytes, str_eq}
use onetimelink.Prelude.Int.{ℤ, pos}
use onetimelink.Prelude.Result.{ok}

-- A flag with the value that it is given, a number with its text; a boolean flag may be given none.
pub data Setting : Type 0 where
  listens : Bytes → Setting
  has_base : Bytes → Setting
  has_tls : Bool → Setting
  allows : Bool → Setting
  bare_tls bare_allows : Setting
  holds : ℤ → Bytes → Setting
  answers_on : Bytes → Setting

abbrev pub set : Setting → Flags → Flags
set (listens v) f = record f { listen = v }
set (has_base v) f = record f { url_base = v }
set (has_tls v) f = record f { tls = v }
set (allows v) f = record f { allow_anonymous = v }
set bare_tls f = record f { tls = true }
set bare_allows f = record f { allow_anonymous = true }
set (holds n text) f = record f { max_entries = n }
set (answers_on v) f = record f { stats_socket = v }

abbrev pub set_all : List (Bool × Setting) → Flags → Flags
set_all [] f = f
set_all ((short, s) ∷ given) f = set_all given (set s f)

abbrev pub bool_text : Bool → Bytes
bool_text true = utf8 "true"
bool_text false = utf8 "false"

-- Its arguments, with the long name or the short one.
abbrev pub words : Bool → Setting → List Bytes
words false (listens v) = utf8 "--listen" ∷ v ∷ []
words true (listens v) = utf8 "-l" ∷ v ∷ []
words false (has_base v) = utf8 "--urlbase" ∷ v ∷ []
words true (has_base v) = utf8 "-u" ∷ v ∷ []
words false (has_tls v) = (utf8 "--tls=" ++ bool_text v) ∷ []
words true (has_tls v) = (utf8 "-s=" ++ bool_text v) ∷ []
words false (allows v) = (utf8 "--allow-anonymous=" ++ bool_text v) ∷ []
words true (allows v) = (utf8 "-a=" ++ bool_text v) ∷ []
words false bare_tls = utf8 "--tls" ∷ []
words true bare_tls = utf8 "-s" ∷ []
words false bare_allows = utf8 "--allow-anonymous" ∷ []
words true bare_allows = utf8 "-a" ∷ []
words false (holds n text) = utf8 "--max-entries" ∷ text ∷ []
words true (holds n text) = utf8 "-m" ∷ text ∷ []
words false (answers_on v) = utf8 "--stats-socket" ∷ v ∷ []
words true (answers_on v) = utf8 "-S" ∷ v ∷ []

-- What holds without any flag.
abbrev pub server_defaults : Flags
server_defaults = record {
  listen = utf8 ":9154";
  url_base = [];
  tls = false;
  allow_anonymous = false;
  max_entries = pos 256;
  stats_socket = [];
}

-- Each setting is given with its long name or its short one.
abbrev pub command_line : List (Bool × Setting) → List Bytes → List Bytes
command_line [] rest = rest
command_line ((short, s) ∷ given) rest = words short s ++ command_line given rest

-- Arguments that are not flags.
abbrev pub IsOperands : List Bytes → Type 0
IsOperands [] = Unit {0}
IsOperands (s ∷ rest) = read_argument s ≡ operand

module _ (parse_int : Bytes → Option ℤ) where
  -- Where a number is given, its text is one of it.
  abbrev pub IsRead : Setting → Type 0
  IsRead (holds n text) = parse_int text ≡ some n
  IsRead _ = Unit {0}

  words-set :
      (short : Bool) (s : Setting) (args : List Bytes) (f : Flags)
      → IsRead s
      → parse_from parse_int server_flags.formal none (words short s ++ args) f
        ≡ parse_from parse_int server_flags.formal none args (set s f)
  unfolding parse_from utf8 rune_bytes next_step read_argument read_name find_flag cut_value
      apply_flag assign str_eq parse_bool one_of
  words-set false (listens v) args f h = refl
  words-set true (listens v) args f h = refl
  words-set false (has_base v) args f h = refl
  words-set true (has_base v) args f h = refl
  words-set false (has_tls true) args f h = refl
  words-set false (has_tls false) args f h = refl
  words-set true (has_tls true) args f h = refl
  words-set true (has_tls false) args f h = refl
  words-set false (allows true) args f h = refl
  words-set false (allows false) args f h = refl
  words-set true (allows true) args f h = refl
  words-set true (allows false) args f h = refl
  words-set false bare_tls args f h = refl
  words-set true bare_tls args f h = refl
  words-set false bare_allows args f h = refl
  words-set true bare_allows args f h = refl
  words-set false (holds n text) args f h = rw (h, parse_from) refl
  words-set true (holds n text) args f h = rw (h, parse_from) refl
  words-set false (answers_on v) args f h = refl
  words-set true (answers_on v) args f h = refl

  abbrev pub AreRead : List (Bool × Setting) → Type 0
  AreRead [] = Unit {0}
  AreRead ((short, s) ∷ given) = IsRead s × AreRead given

  operands_rest :
      (rest : List Bytes) (f : Flags)
      → IsOperands rest
      → parse_from parse_int server_flags.formal none rest f ≡ ok (f, rest)
  unfolding parse_from next_step
  operands_rest [] f h = refl
  operands_rest (s ∷ rest) f h = rw (h, parse_from) refl

  parse_from-command_line :
      (given : List (Bool × Setting)) (rest : List Bytes) (f : Flags)
      → AreRead given
      → IsOperands rest
      → parse_from parse_int server_flags.formal none (command_line given rest) f
        ≡ ok (set_all given f, rest)
  parse_from-command_line [] rest f hs h = operands_rest rest f h
  parse_from-command_line ((short, s) ∷ given) rest f (r, hs) h =
      words-set short s (command_line given rest) f r
      ∙ parse_from-command_line given rest (set s f) hs h

  -- On a command line of settings in any order and number, each by its long name behind two dashes or its
  -- short one behind one, a boolean alone or with its value behind an equals sign, any other value as the
  -- next argument, with texts for the numbers that ParseInt reads as them, and then arguments that are not
  -- flags: the server gets the defaults changed by the settings in their order, the last of several for
  -- one flag prevailing, and the arguments behind them.
  pub parse-command_line :
      (given : List (Bool × Setting)) (rest : List Bytes)
      → AreRead given
      → IsOperands rest
      → parse parse_int server_flags (command_line given rest)
        ≡ ok (set_all given server_defaults, rest)
  parse-command_line given rest hs h = parse_from-command_line given rest server_defaults hs h
