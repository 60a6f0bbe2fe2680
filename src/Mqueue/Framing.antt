-- ===== src/Mqueue/Framing.antt =====
-- mqueue.c: what mq_send writes and mq_message_event reads.
use maketool.Common.{
  ℕ, ◌+◌, ◌*◌, ◌%◌, ◌≤◌, ◌<◌, ◌≡◌, Option, some, List, [], ◌∷◌, ◌++◌, length, ◌>>=◌, Bytes, All,
}
use maketool.Estring.{Estring}
use maketool.Mqueue.{MessageHeader, Message, mq_send}

-- The property behind a run of mq_send, one for each body.
abbrev pub posted : (MessageHeader → Bytes) → ℕ → ℕ → List Bytes → ℕ × Bytes → Option Bytes
posted encode limit self [] state = some state.1
posted encode limit self (body ∷ bodies) state =
    mq_send encode limit self body state >>= λ state'. posted encode limit self bodies state'

-- The messages with these bodies, numbered from behind `last`.
abbrev pub numbered : (ℕ → ℕ) → ℕ → ℕ → ℕ → List Bytes → List Message
numbered window limit self last [] = []
numbered window limit self last (body ∷ bodies) =
    record { msgid = (last + 1) % limit; from = window self; body = body }
    ∷ numbered window limit self ((last + 1) % limit) bodies

-- The bodies that arrive: all but an empty one at the end.
abbrev pub readable : List Bytes → List Bytes
readable [] = []
readable ([] ∷ []) = []
readable ((c ∷ s) ∷ []) = (c ∷ s) ∷ []
readable (body ∷ next ∷ bodies) = body ∷ readable (next ∷ bodies)

abbrev pub Short : ℕ → List Bytes → Type 0
Short limit bodies = All (λ body. (length body < limit) × (length body ≤ 1023)) bodies

-- The bytes that such messages take.
abbrev pub used : ℕ → List Bytes → ℕ
used size [] = 0
used size (body ∷ bodies) = size + length body + used size bodies

-- gdk_property_get returns a property of at most 1024 units of four bytes as a whole, with a zero
-- byte behind it.
abbrev pub ReturnsAll : (ℕ → Bytes → Bytes) → Type 0
ReturnsAll get =
    (n : ℕ) (property : Bytes) → length property ≤ 4 * n → get n property ≡ property ++ 0 ∷ []

-- What a struct keeps when its bytes are copied: fields that an `unsigned long` can hold.
abbrev pub Copied : ℕ → ℕ → (MessageHeader → Bytes) → (Bytes → MessageHeader) → Type 0
Copied size limit encode decode =
    (h : MessageHeader)
    → (h.hdr_msgid < limit)
    → (h.hdr_from < limit)
    → (h.hdr_length < limit)
    → (length (encode h) ≡ size) × (decode (encode h) ≡ h)

module _ (size limit : ℕ) (encode : MessageHeader → Bytes) (decode : Bytes → MessageHeader)
    (window : ℕ → ℕ) (self : ℕ) (copied : Copied size limit encode decode)
    (self_fits : self < limit) (not_empty : 0 < size) (small : size ≤ 1023) where
  abbrev hdr : ℕ → Bytes → MessageHeader
  hdr id body = record { hdr_msgid = id; hdr_from = self; hdr_length = length body }

  abbrev got : ℕ → Bytes → Message
  got id body = record { msgid = id; from = window self; body = body }

  -- What bodies sent one after the other leave for `t` behind them.
  abbrev sent : ℕ → List Bytes → Bytes → Bytes
  sent last [] t = t
  sent last (body ∷ bodies) t =
      encode (hdr ((last + 1) % limit) body) ++ (body ++ sent ((last + 1) % limit) bodies t)
