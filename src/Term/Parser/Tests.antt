-- ===== src/Term/Parser/Tests.antt =====
-- The input parser at concrete bytes.
use anycode.Base.{
  ◌≡◌, refl, false, some, List, [], ◌∷◌, ◌++◌, Bytes, arith, ap, length, length-append,
}
use anycode.Base.Utf8.{from_utf8_lossy}
use anycode.Term.Event.{
  Direction, MouseEvent, MouseButton, InputEvent, KeyKind, key, mouse, paste, arrow, to_x10_bytes,
}
use anycode.Term.Parser.{
  InputParser, init, feed, flush, run, step_in, on_ground, on_esc, on_csi_entry, on_csi_param,
  end_marker, ground_state, esc_received, has_pending,
}
use anycode.Term.Params.{classify_csi_final, classify_tilde_key, extract_csi_params}
use anycode.Term.Parser.Valid.{IsValid, feed-flush_total}
use anycode.Term.Parser.Lossless.{run_lossless}
use anycode.Term.Parser.Conserves.{taken}
use anycode.Term.Parser.Chunks.{feed-append}
use anycode.Term.Parser.Paste.{feed_paste, start_marker, NoMarker}
use anycode.Term.Parser.X10.{feed-to_x10_bytes}

abbrev arrow_up : Bytes
arrow_up = 0x1b ∷ b'[' ∷ b'A' ∷ []

abbrev arrow_event : InputEvent
arrow_event = key (record { raw = arrow_up; kind = arrow Direction.up })

abbrev escaped : InputParser
escaped = record { state = esc_received; buf = 0x1b ∷ []; out = [] }

-- ESC[1;3A is Alt and the arrow; ESC[15~ is F5.
keys :
    (feed init (0x1b ∷ b'[' ∷ b'1' ∷ b';' ∷ b'3' ∷ b'A' ∷ [])
      ≡ some (
        init,
        key (record {
          raw = 0x1b ∷ b'[' ∷ b'1' ∷ b';' ∷ b'3' ∷ b'A' ∷ [];
          kind = KeyKind.alt (arrow Direction.up);
        })
            ∷ [],
      ))
    × (feed init (0x1b ∷ b'[' ∷ b'1' ∷ b'5' ∷ b'~' ∷ [])
        ≡ some (
          init,
          key (record { raw = 0x1b ∷ b'[' ∷ b'1' ∷ b'5' ∷ b'~' ∷ []; kind = KeyKind.function 5 })
              ∷ [],
        ))
unfolding feed run step_in on_ground on_esc on_csi_entry on_csi_param extract_csi_params
    classify_csi_final classify_tilde_key
keys = (refl, refl)

feed-flush_total_example :
    ((q : InputParser) × (es : List InputEvent) × (feed init arrow_up ≡ some (q, es))
      × IsValid q
      × (q.out ≡ []))
    × IsValid (flush init).0
    × ((flush init).0.out ≡ [])
    × (has_pending (flush init).0 ≡ false)
feed-flush_total_example = feed-flush_total init arrow_up refl

abbrev one_arrow : InputParser
one_arrow = record { state = ground_state; buf = []; out = arrow_event ∷ [] }

run-arrow_up : run init arrow_up ≡ some one_arrow
unfolding run step_in on_ground on_esc on_csi_entry classify_csi_final
run-arrow_up = refl

run_lossless_example : taken one_arrow ≡ taken init ++ arrow_up
run_lossless_example = run_lossless arrow_up init refl run-arrow_up refl

feed-esc : feed init (0x1b ∷ []) ≡ some (escaped, [])
unfolding feed run step_in on_ground
feed-esc = refl

feed-rest : feed escaped (b'[' ∷ b'A' ∷ []) ≡ some (init, arrow_event ∷ [])
unfolding feed run step_in on_esc on_csi_entry classify_csi_final
feed-rest = refl

feed-append_example : feed init (0x1b ∷ b'[' ∷ b'A' ∷ []) ≡ some (init, arrow_event ∷ [])
feed-append_example =
    feed-append (0x1b ∷ []) (b'[' ∷ b'A' ∷ []) init escaped init [] (arrow_event ∷ []) feed-esc
      feed-rest

abbrev pasted : Bytes
pasted = b'h' ∷ b'i' ∷ []

pasted-NoMarker : NoMarker pasted
pasted-NoMarker x y e = omega (arith, ap length e, length-append x (end_marker ++ y))

feed_paste_example :
    feed init (start_marker ++ (pasted ++ end_marker))
    ≡ some (init, paste (from_utf8_lossy pasted) ∷ [])
feed_paste_example = feed_paste init pasted refl refl pasted-NoMarker

feed-to_x10_bytes_example :
    feed init (to_x10_bytes (MouseEvent.drag MouseButton.left 10 200))
    ≡ some (init, mouse (MouseEvent.drag MouseButton.left 10 200) ∷ [])
unfolding to_x10_bytes
feed-to_x10_bytes_example =
    feed-to_x10_bytes init (MouseEvent.drag MouseButton.left 10 200) refl refl (omega arith)
      (omega arith)
