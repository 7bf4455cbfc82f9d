-- ===== src/Chat/Dsml.antt =====
-- app/features/chat/dsml.py: markup of tool calls in a text, and its removal from a stream of chunks.
-- The regular expressions are written out: their classes have no character in common, so each match
-- is a single walk over the text.
pub mod Runs
pub mod Growth
pub mod Search
pub mod Holding
pub mod Stream
use green_garden_api.Prelude.{
  ℕ, ◌+◌, ◌≡◌, Bool, true, false, not, ◌&&◌, ◌||◌, Option, none, some, List, [], ◌∷◌, ◌++◌, Text,
  codes, is_nonempty, leb, ◌==◌, if◌then◌else◌, length, map, all,
}
use green_garden_api.Core.Text.{is_space, lstrip, ascii_lower}

-- `_BAR`
unfoldable pub is_bar : ℕ → Bool
is_bar c = c == b'|' || c == 0xff5c

-- One character under `re.IGNORECASE`: `str.lower`'s ASCII letters, and U+017F, which is an `s`.
unfoldable pub fold : ℕ → ℕ
fold c = if c == 0x17f then b's' else ascii_lower c

unfoldable pub has_prefix : Text → Text → Bool
has_prefix [] s = true
has_prefix (c ∷ w) [] = false
has_prefix (c ∷ w) (d ∷ s) = c == d && has_prefix w s

-- `\s*` and `/?`
abbrev pub skip : Text → Text
skip s = lstrip is_space s

abbrev pub skip_slash : Text → Text
skip_slash [] = []
skip_slash (c ∷ s) = if c == b'/' then s else c ∷ s

-- `(?:DSML|tool)`
unfoldable pub begins_word : Text → Bool
begins_word s = has_prefix (codes "dsml") (map fold s) || has_prefix (codes "tool") (map fold s)

-- `[|｜]+\s*` and the word
unfoldable pub begins_bars : Text → Bool
begins_bars [] = false
begins_bars (c ∷ s) = is_bar c && begins_word (skip (lstrip is_bar s))

-- `_MARKER_RE`, where the text begins
unfoldable pub begins_marker : Text → Bool
begins_marker [] = false
begins_marker (c ∷ s) = c == b'<' && begins_bars (skip (skip_slash (skip s)))

abbrev pub moved : ℕ → Option (Text × Text) → Option (Text × Text)
moved c none = none
moved c (some (before, rest)) = some (c ∷ before, rest)

-- `_MARKER_RE.search(text)`: the text before the first marker, and the text from it on.
unfoldable pub search_marker : Text → Option (Text × Text)
search_marker [] = none
search_marker (c ∷ s) =
    let later = search_marker s in if begins_marker (c ∷ s) then some ([], c ∷ s) else moved c later
  where
    moved : ℕ → Option (Text × Text) → Option (Text × Text)
    moved c none = none
    moved c (some (before, rest)) = some (c ∷ before, rest)

unfoldable pub contains_tool_markup : Text → Bool
contains_tool_markup text = elim (search_marker text) [ none ↦ false | some found ↦ true ]

abbrev pub before_or : Option (Text × Text) → Text → Text
before_or none text = text
before_or (some (before, rest)) text = before

unfoldable pub strip_tool_markup : Text → Text
strip_tool_markup text = before_or (search_marker text) text

-- `[A-Za-z]`
unfoldable pub is_letter : ℕ → Bool
is_letter c = (leb b'A' c && leb c b'Z') || (leb b'a' c && leb c b'z')

-- The word of `_PARTIAL_MARKER_RE` with the test that follows: up to four letters, which begin a
-- marker's word, and bars before them.
unfoldable pub may_be_word : Bool → Text → Bool
may_be_word bars s =
    all is_letter s
    && (leb (length s) 4
        && (not (is_nonempty s)
            || (bars
                && (has_prefix (map ascii_lower s) (codes "dsml")
                    || has_prefix (map ascii_lower s) (codes "tool")))))

abbrev pub begins_bar : Text → Bool
begins_bar [] = false
begins_bar (c ∷ s) = is_bar c

-- `_PARTIAL_MARKER_RE.fullmatch(text, idx)` and the test, behind the `<`
unfoldable pub may_be_marker : Text → Bool
may_be_marker s =
    let bars = skip (skip_slash (skip s)) in
    may_be_word (begins_bar bars) (skip (lstrip is_bar bars))

-- `text.rfind("<")`: the text before the last `<`, and the text behind it.
abbrev pub also : ℕ → Option (Text × Text) → Text → Option (Text × Text)
also c (some (before, behind)) s = some (c ∷ before, behind)
also c none s = if c == b'<' then some ([], s) else none

unfoldable pub split_last : Text → Option (Text × Text)
split_last [] = none
split_last (c ∷ s) = also c (split_last s) s

-- `_partial_marker_start`: what may be sent, and what is held back because it may still grow into a
-- marker.
abbrev pub held_from : Text → Option (Text × Text) → Text × Text
held_from text none = (text, [])
held_from text (some (before, behind)) =
    if may_be_marker behind then (before, b'<' ∷ behind) else (text, [])

unfoldable pub hold : Text → Text × Text
hold text = held_from text (split_last text)

-- The state of a `DsmlStreamGuard`.
pub record DsmlStreamGuard : Type 0 where
  pub pending : Text
  pub captured : List Text
  pub capturing : Bool

abbrev pub new_guard : DsmlStreamGuard
new_guard = record { pending = []; captured = []; capturing = false }

abbrev pub feed_text : DsmlStreamGuard → Text → Option (Text × Text) → Text × DsmlStreamGuard
feed_text guard text (some (before, rest)) =
    (before, record { pending = []; captured = guard.captured ++ rest ∷ []; capturing = true })
feed_text guard text none = ((hold text).0, record guard { pending = (hold text).1 })

unfoldable pub feed : DsmlStreamGuard → Text → Text × DsmlStreamGuard
feed guard chunk =
    if guard.capturing
    then ([], record guard { captured = guard.captured ++ chunk ∷ [] })
    else feed_text guard (guard.pending ++ chunk) (search_marker (guard.pending ++ chunk))

unfoldable pub finish : DsmlStreamGuard → Text × DsmlStreamGuard
finish guard = (if guard.capturing then [] else guard.pending, record guard { pending = [] })

-- A stream: what is sent for its chunks, and for its end.
unfoldable pub stream : DsmlStreamGuard → List Text → Text
stream guard [] = (finish guard).0
stream guard (chunk ∷ chunks) = let (sent, next) = feed guard chunk in sent ++ stream next chunks
