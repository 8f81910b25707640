-- ===== src/Pipeline/StreamAdapter/Chunks.antt =====
-- Events that are written as a stream, cut into chunks anywhere, and fed to the decoder.
use mathlib.Core.List.{append_assoc, append-nil}
use aistudio_gemini_gateway.Base.{
  ◌≡◌, ◌∙◌, ◌≢◌, refl, sym, ap, subst, none, List, [], ◌∷◌, ◌++◌, Text, text_eq, nat_eq,
  ne→==_false,
}
use aistudio_gemini_gateway.Pipeline.StreamAdapter.{
  replace_crlf, replace_cr, normalize_sse_newlines, cut_frame, feed_buffer, feed,
}
use aistudio_gemini_gateway.Pipeline.StreamAdapter.Framing.{
  feed_buffer-append, feed_buffer-none, feed_buffer-rest, feed_buffer-end,
}

-- The decoder over chunks, one after the other.
abbrev pub feed_all : Text → List Text → List Text × Text
feed_all buf [] = ([], buf)
feed_all buf (chunk ∷ chunks) =
    let (payloads, rest) = feed buf chunk in
    let (more, end) = feed_all rest chunks in (payloads ++ more, end)

abbrev pub joined : List Text → Text
joined [] = []
joined (chunk ∷ chunks) = chunk ++ joined chunks

-- No carriage return.
abbrev pub HasNoReturn : Text → Type 0
HasNoReturn [] = Unit
HasNoReturn (c ∷ s) = (c ≢ b'\r') × HasNoReturn s

pub HasNoReturn-append : (s t : Text) → HasNoReturn s → HasNoReturn t → HasNoReturn (s ++ t)
HasNoReturn-append [] t h k = k
HasNoReturn-append (c ∷ s) t (p, h) k = (p, HasNoReturn-append s t h k)

pub HasNoReturn-parts : (s t : Text) → HasNoReturn (s ++ t) → HasNoReturn s × HasNoReturn t
HasNoReturn-parts [] t h = (tt, h)
HasNoReturn-parts (c ∷ s) t (p, h) = let (k, l) = HasNoReturn-parts s t h in ((p, k), l)

normalize-HasNoReturn : (s : Text) → HasNoReturn s → normalize_sse_newlines s ≡ s
unfolding normalize_sse_newlines replace_crlf replace_cr
normalize-HasNoReturn [] h = refl
normalize-HasNoReturn (c ∷ s) (p, h) =
    rw (ne→==_false c b'\r' p, ne→==_false c b'\r' p) (ap (λ t. c ∷ t) (normalize-HasNoReturn s h))

feed_buffer-HasNoReturn : (s : Text) → HasNoReturn s → HasNoReturn (feed_buffer s).1
feed_buffer-HasNoReturn s h =
    let (before, same) = feed_buffer-end s in
    (HasNoReturn-parts before (feed_buffer s).1 (subst HasNoReturn same h)).1

feed-buffer :
    (buf chunk : Text)
    → HasNoReturn (buf ++ chunk)
    → cut_frame buf ≡ none
    → feed buf chunk ≡ feed_buffer (buf ++ chunk)
unfolding feed
feed-buffer buf [] h e = rw (append-nil buf) (sym (feed_buffer-none buf e))
feed-buffer buf (c ∷ chunk) h e = rw (normalize-HasNoReturn (buf ++ c ∷ chunk) h) refl

-- Without carriage returns the chunks give what they give in one piece.
pub feed_all-joined :
    (buf : Text) (chunks : List Text)
    → HasNoReturn (buf ++ joined chunks)
    → cut_frame buf ≡ none
    → feed_all buf chunks ≡ feed_buffer (buf ++ joined chunks)
feed_all-joined buf [] h e = rw (append-nil buf) (sym (feed_buffer-none buf e))
feed_all-joined buf (chunk ∷ chunks) h e =
    rw
      (
        feed-buffer buf chunk first e,
        feed_all-joined (feed_buffer (buf ++ chunk)).1 chunks rest
            (feed_buffer-rest (buf ++ chunk)),
      )
      (feed_buffer-append (buf ++ chunk) (joined chunks)
        ∙ ap feed_buffer (append_assoc buf chunk (joined chunks)))
  where
    all : HasNoReturn (buf ++ chunk) × HasNoReturn (joined chunks)
    all =
        HasNoReturn-parts (buf ++ chunk) (joined chunks)
          (subst HasNoReturn (sym (append_assoc buf chunk (joined chunks))) h)

    first : HasNoReturn (buf ++ chunk)
    first = all.0

    rest : HasNoReturn ((feed_buffer (buf ++ chunk)).1 ++ joined chunks)
    rest =
        HasNoReturn-append (feed_buffer (buf ++ chunk)).1 (joined chunks)
          (feed_buffer-HasNoReturn (buf ++ chunk) first) all.1
