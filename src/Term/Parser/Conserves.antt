-- ===== src/Term/Parser/Conserves.antt =====
-- What a handler keeps of the bytes: the raw bytes of the emitted keys, followed by the pending
-- bytes, grow by the byte that was read.
use anycode.Base.{
  ℕ, ◌≡◌, refl, Bool, true, false, ◌&&◌, List, [], ◌∷◌, ◌++◌, arith, Bytes, ◌==◌, if◌then◌else◌,
  append_assoc, append-nil, ==_iff, ap, sym, ◌∙◌,
}
use anycode.Term.Event.{MouseEvent, KeyKind, InputEvent, key, mouse, paste, KeyInput, escape}
use anycode.Term.Parser.{
  State, ground_state, esc_received, paste_buf, InputParser, emit_key, push, finish, restart,
  emit_mouse, on_ground, on_esc, on_csi_entry, on_csi_param, in_paste,
}

-- The raw bytes of the keys among the events.
abbrev forwarded : List InputEvent → Bytes
forwarded [] = []
forwarded (key k ∷ es) = k.raw ++ forwarded es
forwarded (mouse e ∷ es) = forwarded es
forwarded (paste t ∷ es) = forwarded es

abbrev keys_only : List InputEvent → Bool
keys_only [] = true
keys_only (key k ∷ es) = keys_only es
keys_only (mouse e ∷ es) = false
keys_only (paste t ∷ es) = false

abbrev pub not_paste : State → Bool
not_paste paste_buf = false
not_paste ground_state = true
not_paste _ = true

-- Only keys so far, and no paste has begun.
abbrev pub forwardable : InputParser → Bool
forwardable p = keys_only p.out && not_paste p.state

-- What the parser has taken in: the emitted bytes, then the pending ones.
abbrev pub taken : InputParser → Bytes
taken p = forwarded p.out ++ p.buf

pub forwarded-concat :
    (es : List InputEvent) (k : KeyInput) → forwarded (es ++ key k ∷ []) ≡ forwarded es ++ k.raw
forwarded-concat [] k = append-nil k.raw
forwarded-concat (key j ∷ es) k =
    ap (λ t. j.raw ++ t) (forwarded-concat es k) ∙ sym (append_assoc j.raw (forwarded es) k.raw)
forwarded-concat (mouse e ∷ es) k = forwarded-concat es k
forwarded-concat (paste t ∷ es) k = forwarded-concat es k

pub keys_only-concat :
    (es : List InputEvent) (k : KeyInput) → keys_only (es ++ key k ∷ []) ≡ keys_only es
keys_only-concat [] k = refl
keys_only-concat (key j ∷ es) k = keys_only-concat es k
keys_only-concat (mouse e ∷ es) k = refl
keys_only-concat (paste t ∷ es) k = refl

pub record Conserves (p : InputParser) (b : ℕ) (q : InputParser) : Type 0 where
  pub at : forwardable q ≡ true → (forwardable p ≡ true) × (taken q ≡ taken p ++ b ∷ [])

Conserves-if :
    (c : Bool) {p : InputParser} {b : ℕ} (x y : InputParser)
    → (c ≡ true → Conserves p b x)
    → (c ≡ false → Conserves p b y)
    → Conserves p b (if c then x else y)
Conserves-if true x y hx hy = hx refl
Conserves-if false x y hx hy = hy refl

pub finish-Conserves :
    (p : InputParser) (b : ℕ) (k : KeyKind)
    → not_paste p.state ≡ true
    → Conserves p b (finish p b k)
finish-Conserves p b k h = record {
  at = λ f. (
    ground (arith, keys_only-concat p.out (record { raw = p.buf ++ b ∷ []; kind = k })),
    append-nil _
        ∙ forwarded-concat p.out (record { raw = p.buf ++ b ∷ []; kind = k })
        ∙ sym (append_assoc (forwarded p.out) p.buf (b ∷ [])),
  );
}

pub push-Conserves :
    (p : InputParser) (b : ℕ) (s : State) → not_paste p.state ≡ true → Conserves p b (push p b s)
push-Conserves p b s h = record {
  at = λ f. (ground arith, sym (append_assoc (forwarded p.out) p.buf (b ∷ [])));
}

restart-Conserves :
    (p : InputParser) (b : ℕ) (s : State)
    → not_paste p.state ≡ true
    → p.buf ≡ []
    → Conserves p b (restart p b s)
restart-Conserves p b s h e = record {
  at = λ f. (ground arith, rw (e, append-nil (forwarded p.out)));
}

emit_key-Conserves :
    (p : InputParser) (b : ℕ) (k : KeyKind)
    → not_paste p.state ≡ true
    → p.buf ≡ []
    → Conserves p b (emit_key p (b ∷ []) k)
emit_key-Conserves p b k h e = record {
  at = λ f. (
    ground (arith, keys_only-concat p.out (record { raw = b ∷ []; kind = k })),
    rw
        (
          e,
          append-nil (forwarded p.out),
          append-nil (forwarded (p.out ++ key (record { raw = b ∷ []; kind = k }) ∷ [])),
        )
        (forwarded-concat p.out (record { raw = b ∷ []; kind = k })),
  );
}

ruleset conserve_rules =
    (Conserves-if, finish-Conserves, push-Conserves, restart-Conserves, emit_key-Conserves)

esc-Conserves :
    (p : InputParser) (b : ℕ)
    → (b == 0x1b) ≡ true
    → not_paste p.state ≡ true
    → p.buf ≡ []
    → Conserves p b (restart p 0x1b esc_received)
esc-Conserves p b c h e = rw (← (==_iff b 0x1b).0 c) (restart-Conserves p b esc_received h e)

pub on_ground-Conserves :
    (p : InputParser) (b : ℕ)
    → not_paste p.state ≡ true
    → p.buf ≡ []
    → Conserves p b (on_ground p b)
unfolding on_ground
on_ground-Conserves p b h e = search (conserve_rules, esc-Conserves) depth 20

-- In `EscReceived` a second ESC emits the first and starts again.
esc_esc-Conserves :
    (p : InputParser) (b : ℕ)
    → (b == 0x1b) ≡ true
    → not_paste p.state ≡ true
    → p.buf ≡ 0x1b ∷ []
    → Conserves p b (restart (emit_key p (0x1b ∷ []) escape) 0x1b esc_received)
esc_esc-Conserves p b c h e = record {
  at = λ f. (
    ground (arith, keys_only-concat p.out (record { raw = 0x1b ∷ []; kind = escape })),
    rw (e, (==_iff b 0x1b).0 c, forwarded-concat p.out (record { raw = 0x1b ∷ []; kind = escape }))
        refl,
  );
}

pub on_esc-Conserves :
    (p : InputParser) (b : ℕ)
    → not_paste p.state ≡ true
    → p.buf ≡ 0x1b ∷ []
    → Conserves p b (on_esc p b)
unfolding on_esc
on_esc-Conserves p b h e = search (conserve_rules, esc_esc-Conserves) depth 20

pub on_csi_entry-Conserves :
    (p : InputParser) (b : ℕ) → not_paste p.state ≡ true → Conserves p b (on_csi_entry p b)
unfolding on_csi_entry
on_csi_entry-Conserves p b h = search conserve_rules depth 20

-- A paste begins: the parser is no longer forwardable.
paste_buf-Conserves :
    (p : InputParser) (b : ℕ) → Conserves p b (record p { buf = []; state = paste_buf })
paste_buf-Conserves p b = record { at = λ f. ground arith }

pub on_csi_param-Conserves :
    (p : InputParser) (b : ℕ) → not_paste p.state ≡ true → Conserves p b (on_csi_param p b)
unfolding on_csi_param
on_csi_param-Conserves p b h = search (conserve_rules, paste_buf-Conserves) depth 20

keys_only-mouse : (es : List InputEvent) (e : MouseEvent) → keys_only (es ++ mouse e ∷ []) ≡ false
keys_only-mouse [] e = refl
keys_only-mouse (key k ∷ es) e = keys_only-mouse es e
keys_only-mouse (mouse _ ∷ es) e = refl
keys_only-mouse (paste _ ∷ es) e = refl

pub emit_mouse-Conserves :
    (p : InputParser) (b : ℕ) (e : MouseEvent) → Conserves p b (emit_mouse p e)
emit_mouse-Conserves p b e = record { at = λ f. ground (arith, keys_only-mouse p.out e) }

keys_only-paste : (es : List InputEvent) (t : List ℕ) → keys_only (es ++ paste t ∷ []) ≡ false
keys_only-paste [] t = refl
keys_only-paste (key k ∷ es) t = keys_only-paste es t
keys_only-paste (mouse _ ∷ es) t = refl
keys_only-paste (paste _ ∷ es) t = refl

paste-Conserves :
    (p : InputParser) (b : ℕ) (t : List ℕ)
    → Conserves p b (record p { out = p.out ++ paste t ∷ []; buf = []; state = ground_state })
paste-Conserves p b t = record { at = λ f. ground (arith, keys_only-paste p.out t) }

stay-Conserves : (p : InputParser) (b : ℕ) → p.state ≡ paste_buf → Conserves p b (push p b p.state)
stay-Conserves p b h = record { at = λ f. ground arith }

pub in_paste-Conserves :
    (p : InputParser) (b : ℕ) → p.state ≡ paste_buf → Conserves p b (in_paste p b)
unfolding in_paste
in_paste-Conserves p b h = search (Conserves-if, paste-Conserves, stay-Conserves p b h)
