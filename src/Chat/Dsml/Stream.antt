-- ===== src/Chat/Dsml/Stream.antt =====
-- However a text is cut into chunks, the guard sends what is left of the whole text without markup.
use green_garden_api.Prelude.{
  ◌≡◌, ◌∙◌, refl, ap, sym, true, false, Option, none, some, List, [], ◌∷◌, ◌++◌, Text,
}
use green_garden_api.Chat.Dsml.{
  search_marker, before_or, strip_tool_markup, contains_tool_markup, hold, DsmlStreamGuard,
  new_guard, feed_text, feed, finish, stream,
}
use green_garden_api.Chat.Dsml.Runs.{IsPlain}
use green_garden_api.Chat.Dsml.Search.{search-nil, extended, search-append, strip-clean}
use green_garden_api.Chat.Dsml.Holding.{
  append-nil, hold-append, IsPlain-append, IsPlain-end, held-search, append_assoc, strip-hold,
}

-- The chunks of a stream, put together.
abbrev pub text_of : List Text → Text
text_of [] = []
text_of (chunk ∷ chunks) = chunk ++ text_of chunks

feed-capturing :
    (guard : DsmlStreamGuard) (chunk : Text)
    → guard.capturing ≡ true
    → feed guard chunk ≡ ([], record guard { captured = guard.captured ++ chunk ∷ [] })
unfolding feed
feed-capturing guard chunk h = rw h refl

feed-open :
    (guard : DsmlStreamGuard) (chunk : Text)
    → guard.capturing ≡ false
    → feed guard chunk
      ≡ feed_text guard (guard.pending ++ chunk) (search_marker (guard.pending ++ chunk))
unfolding feed
feed-open guard chunk h = rw h refl

-- After a marker nothing is sent.
stream-capturing :
    (guard : DsmlStreamGuard) (chunks : List Text)
    → guard.capturing ≡ true
    → stream guard chunks ≡ []
unfolding stream finish
stream-capturing guard [] h = rw h refl
stream-capturing guard (chunk ∷ chunks) h =
    ap (λ (r : Text × DsmlStreamGuard). r.0 ++ stream r.1 chunks) (feed-capturing guard chunk h)
    ∙ stream-capturing (record guard { captured = guard.captured ++ chunk ∷ [] }) chunks h

found-strip :
    (s u : Text) {before rest : Text}
    → IsPlain s
    → search_marker s ≡ some (before, rest)
    → strip_tool_markup (s ++ u) ≡ before
unfolding strip_tool_markup
found-strip s u plain h =
    ap (λ (o : Option (Text × Text)). before_or o (s ++ u))
      (search-append s u plain h ∙ ap (extended u) h)

IsPlain-front : (s t : Text) → IsPlain (s ++ t) → IsPlain s
IsPlain-front [] t h = tt
IsPlain-front (c ∷ s) t h = (h.0, IsPlain-front s t h.1)

IsPlain-held : (s : Text) → IsPlain s → IsPlain (hold s).1
IsPlain-held s h = IsPlain-end (hold s).0 (hold s).1 (rw (hold-append s) h)

-- One chunk, where the rest of the stream goes on with what is held back.
stream-chunk :
    (guard : DsmlStreamGuard) (chunk : Text) (chunks : List Text)
    → guard.capturing ≡ false
    → IsPlain (guard.pending ++ chunk)
    → (search_marker (guard.pending ++ chunk) ≡ none
        → stream (record guard { pending = (hold (guard.pending ++ chunk)).1 }) chunks
          ≡ strip_tool_markup ((hold (guard.pending ++ chunk)).1 ++ text_of chunks))
    → (o : Option (Text × Text)) → search_marker (guard.pending ++ chunk) ≡ o
    → stream guard (chunk ∷ chunks) ≡ strip_tool_markup ((guard.pending ++ chunk) ++ text_of chunks)
unfolding stream
stream-chunk guard chunk chunks off plain later o e =
    let text = guard.pending ++ chunk in
    ap (λ (r : Text × DsmlStreamGuard). r.0 ++ stream r.1 chunks)
      (feed-open guard chunk off ∙ ap (feed_text guard text) e)
    ∙ go o e
  where
    go :
        (o : Option (Text × Text))
        → search_marker (guard.pending ++ chunk) ≡ o
        → (feed_text guard (guard.pending ++ chunk) o).0
            ++ stream (feed_text guard (guard.pending ++ chunk) o).1 chunks
          ≡ strip_tool_markup ((guard.pending ++ chunk) ++ text_of chunks)
    go (some (before, rest)) found =
        ap (λ (r : Text). before ++ r)
          (stream-capturing (feed_text guard (guard.pending ++ chunk) (some (before, rest))).1
            chunks refl)
        ∙ append-nil before
        ∙ sym (found-strip (guard.pending ++ chunk) (text_of chunks) plain found)
    go none clear =
        ap (λ (r : Text). (hold (guard.pending ++ chunk)).0 ++ r) (later clear)
        ∙ sym (strip-hold (guard.pending ++ chunk) (text_of chunks) plain clear)

stream-open :
    (chunks : List Text) (guard : DsmlStreamGuard)
    → guard.capturing ≡ false
    → search_marker guard.pending ≡ none
    → IsPlain guard.pending
    → IsPlain (text_of chunks)
    → stream guard chunks ≡ strip_tool_markup (guard.pending ++ text_of chunks)
unfolding stream finish strip_tool_markup
stream-open [] guard off clear plain plain' =
    let none' = ap (λ (r : Text). search_marker r) (append-nil guard.pending) ∙ clear in
    rw (off, none') (sym (append-nil guard.pending))
stream-open (chunk ∷ chunks) guard off clear plain plain' =
    let text = guard.pending ++ chunk in
    let plain-text =
      IsPlain-append guard.pending chunk plain (IsPlain-front chunk (text_of chunks) plain') in
    let later = λ (none' : search_marker text ≡ none).
      stream-open chunks (record guard { pending = (hold text).1 }) off
        (held-search text plain-text none') (IsPlain-held text plain-text)
        (IsPlain-end chunk (text_of chunks) plain') in
    stream-chunk guard chunk chunks off plain-text later (search_marker text) refl
    ∙ ap (λ (r : Text). strip_tool_markup r) (append_assoc guard.pending chunk (text_of chunks))

no_markup : (s : Text) → contains_tool_markup (strip_tool_markup s) ≡ false
unfolding contains_tool_markup strip_tool_markup
no_markup s = rw (contains_tool_markup, strip-clean s) refl

-- For a text without the character U+017F, however it is cut into chunks: what a new guard sends for
-- the chunks and for the end of the stream is, put together, what `strip_tool_markup` leaves of the
-- whole text, and it has no markup of a tool call.
pub stream-strip_tool_markup :
    (chunks : List Text)
    → IsPlain (text_of chunks)
    → (stream new_guard chunks ≡ strip_tool_markup (text_of chunks))
      × (contains_tool_markup (stream new_guard chunks) ≡ false)
stream-strip_tool_markup chunks plain =
    let same = stream-open chunks new_guard refl search-nil tt plain in
    (same, ap contains_tool_markup same ∙ no_markup (text_of chunks))
