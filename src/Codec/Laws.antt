-- ===== src/Codec/Laws.antt =====
-- What the encoder and the decoder of a type promise, and the rules by which a composed codec
-- keeps those promises.
use mathlib.Core.Path.{subst}
use bp_core.Base.{
  ℕ, zero, suc, ◌≡◌, refl, sym, ap, arith, List, [], ◌∷◌, ◌++◌, length, Bytes, AreBytes, All,
  AreBytes-append, length-append, append_assoc, append-nil, Bool, true, false, if◌then◌else◌,
}
use bp_core.Codec.{
  Result, ok, err, panic, io, data_error, Decoder, bind, ◌>>=◌, pure, fail, ConsensusDataError,
  Encoded, ◌<+>◌, decode_items, encode_items,
}

-- A longer input changes nothing but the rest, unless the input ended too early.
abbrev pub Extends : {E A : Type 0} → Result E (A × Bytes) → Bytes → Result E (A × Bytes) → Type 0
Extends (ok (a, rest)) more s = s ≡ ok (a, rest ++ more)
Extends (err (io k)) more s = Unit {0}
Extends (err (data_error e)) more s = s ≡ err (data_error e)
Extends panic more s = s ≡ panic

abbrev pub Streams : {E A : Type 0} → Decoder E A → Type 0
Streams d = (bs more : Bytes) → Extends (d bs) more (d (bs ++ more))

-- The decoder reads `a` off the bytes `cs` and leaves what follows.
abbrev pub Reads : {E A : Type 0} → Decoder E A → Bytes → A → Type 0
Reads d cs a = (rest : Bytes) → d (cs ++ rest) ≡ ok (a, rest)

-- Every value read is related by `P` to exactly the bytes taken off the input.
abbrev pub Consumes : {E A : Type 0} → Decoder E A → (A → Bytes → Type 0) → Type 0
Consumes {A} d P =
    (bs rest : Bytes) (a : A)
    → AreBytes bs
    → d bs ≡ ok (a, rest)
    → (cs : Bytes) × (bs ≡ cs ++ rest) × P a cs × AreBytes rest

module _ {E A B : Type 0} (d : Decoder E A) (f : A → Decoder E B) where
  Extends-bind :
      (more : Bytes) (r s : Result E (A × Bytes))
      → Extends r more s
      → ((a : A) → Streams (f a))
      → Extends (bind r (λ (a, rest). f a rest)) more (bind s (λ (a, rest). f a rest))
  Extends-bind more (ok (a, rest)) s e k = rw e (k a rest more)
  Extends-bind more (err (io x)) s e k = tt
  Extends-bind more (err (data_error x)) s e k = rw e
  Extends-bind more panic s e k = rw e

  pub Streams-bind : Streams d → ((a : A) → Streams (f a)) → Streams (d >>= f)
  Streams-bind h k bs more = Extends-bind more (d bs) (d (bs ++ more)) (h bs more) k

  pub Reads-bind :
      (cs cs' : Bytes) (a : A) (b : B)
      → Reads d cs a
      → Reads (f a) cs' b
      → Reads (d >>= f) (cs ++ cs') b
  Reads-bind cs cs' a b h k rest = rw (append_assoc, h (cs' ++ rest)) (k rest)

  bind-eq-ok :
      (r : Result E (A × Bytes)) (b : B) (rest : Bytes)
      → bind r (λ (a, rest). f a rest) ≡ ok (b, rest)
      → (a : A) × (mid : Bytes) × (r ≡ ok (a, mid)) × (f a mid ≡ ok (b, rest))
  bind-eq-ok (ok (a, mid)) b rest e = (a, mid, refl, e)
  bind-eq-ok (err x) b rest e = cc
  bind-eq-ok panic b rest e = cc

  pub Consumes-bind :
      (P : A → Bytes → Type 0) (Q : B → Bytes → Type 0)
      → Consumes d P
      → ((a : A) (cs : Bytes) → P a cs → Consumes (f a) (λ b cs'. Q b (cs ++ cs')))
      → Consumes (d >>= f) Q
  Consumes-bind P Q h k bs rest b ab e =
      let (a, mid, e₁, e₂) = bind-eq-ok (d bs) b rest e in
      let (cs, p₁, p, am) = h bs mid a ab e₁ in
      let (cs', p₂, q, ar) = k a cs p mid rest b am e₂ in
      (cs ++ cs', rw (append_assoc, ← p₂) p₁, q, ar)

pub Consumes-pure :
    {E A : Type 0} (Q : A → Bytes → Type 0) (a : A) → Q a [] → Consumes {E = E} (pure a) Q
Consumes-pure {E} {A} Q a q bs rest b ab e =
    let same : bs ≡ rest = cc in
    let value : a ≡ b = cc in ([], same, subst (λ x. Q x []) value q, subst AreBytes same ab)

pub Streams-pure : {E A : Type 0} (a : A) → Streams {E = E} (pure a)
Streams-pure a bs more = refl

-- A decoder that gives up, and one that chooses by a test.
module _ {E A : Type 0} where
  pub Consumes-fail :
      (Q : A → Bytes → Type 0) (e : ConsensusDataError E) → Consumes {A = A} (fail e) Q
  Consumes-fail Q e bs rest b ab h = cc

  pub Consumes-if :
      (b : Bool) (d d' : Decoder E A) (Q : A → Bytes → Type 0)
      → (b ≡ true → Consumes d Q)
      → (b ≡ false → Consumes d' Q)
      → Consumes (if b then d else d') Q
  Consumes-if true d d' Q h k = h refl
  Consumes-if false d d' Q h k = k refl

  pub Streams-if :
      (b : Bool) (d d' : Decoder E A) → Streams d → Streams d' → Streams (if b then d else d')
  Streams-if true d d' h k = h
  Streams-if false d d' h k = k

pub Consumes-mono :
    {E A : Type 0} {d : Decoder E A} {P : A → Bytes → Type 0} (Q : A → Bytes → Type 0)
    → Consumes d P
    → ((a : A) (cs : Bytes) → P a cs → Q a cs)
    → Consumes d Q
Consumes-mono Q h k bs rest a ab e = let (cs, p, q, ar) = h bs rest a ab e in (cs, p, k a cs q, ar)

pub Streams-fail : {E : Type 0} (A : Type 0) (e : ConsensusDataError E) → Streams {A = A} (fail e)
Streams-fail A e bs more = refl

-- The promises of the encoder and the decoder of one type, for the values that `IsValid` holds of.
pub record IsCodec {E A : Type 0} (IsValid : A → Type 0) (encode : A → Encoded)
    (decode : Decoder E A) : Type 0 where
  -- The count returned is the number of bytes written.
  pub counted : (a : A) → IsValid a → (encode a).counter ≡ length (encode a).bytes
  pub writes_bytes : (a : A) → IsValid a → AreBytes (encode a).bytes
  pub reads : (a : A) → IsValid a → Reads decode (encode a).bytes a
  pub consumes : Consumes decode (λ a cs. IsValid a × (cs ≡ (encode a).bytes))
  pub streams : Streams decode

-- A type that wraps another, `wrap` reading and `unwrap` writing, has a codec where that has one.
module _ {E A B : Type 0} {IsValid : A → Type 0} {encode : A → Encoded} {decode : Decoder E A}
    (c : IsCodec IsValid encode decode) (IsValid' : B → Type 0) (wrap : A → B) (unwrap : B → A)
    (unwrap-IsValid : (b : B) → IsValid' b → IsValid (unwrap b))
    (wrap-IsValid : (a : A) → IsValid a → IsValid' (wrap a))
    (wrap-unwrap : (b : B) → IsValid' b → wrap (unwrap b) ≡ b)
    (unwrap-wrap : (a : A) → IsValid a → unwrap (wrap a) ≡ a) where
  pub IsCodec-wrap : IsCodec IsValid' (λ b. encode (unwrap b)) (decode >>= λ a. pure (wrap a))
  IsCodec-wrap = record {
    counted = λ b v. c.counted (unwrap b) (unwrap-IsValid b v);
    writes_bytes = λ b v. c.writes_bytes (unwrap b) (unwrap-IsValid b v);
    reads = λ b v rest. rw (c.reads (unwrap b) (unwrap-IsValid b v) rest, wrap-unwrap b v);
    consumes =
        Consumes-bind decode (λ a. pure (wrap a)) _ _ c.consumes
          (λ a cs (v, e).
            Consumes-pure _ (wrap a) (wrap-IsValid a v, rw (append-nil, unwrap-wrap a v) e));
    streams = Streams-bind decode (λ a. pure (wrap a)) c.streams (λ a. Streams-pure (wrap a));
  }

-- A struct of type S: the field that `get` selects, then the rest, of which `IsRest a` says that
-- the field is `a`.
module _ {E A S : Type 0} {IsValid : A → Type 0} {encode : A → Encoded} {decode : Decoder E A}
    (c : IsCodec IsValid encode decode) (get : S → A) {IsRest : A → S → Type 0}
    {encode_rest : S → Encoded} {decode_rest : A → Decoder E S}
    (rest_codec : (a : A) → IsCodec (IsRest a) encode_rest (decode_rest a))
    (get-eq : (a : A) (s : S) → IsRest a s → get s ≡ a) where
  pub IsCodec-field :
      IsCodec
        (λ s. IsValid (get s) × IsRest (get s) s)
        (λ s. encode (get s) <+> encode_rest s)
        (decode >>= decode_rest)
  IsCodec-field = record {
    counted = λ s (v, r).
        rw (length-append (encode (get s)).bytes (encode_rest s).bytes)
          (omega (arith, c.counted (get s) v, (rest_codec (get s)).counted s r));
    writes_bytes = λ s (v, r).
        AreBytes-append _ _ (c.writes_bytes (get s) v) ((rest_codec (get s)).writes_bytes s r);
    reads = λ s (v, r).
        Reads-bind decode decode_rest _ _ (get s) s (c.reads (get s) v)
          ((rest_codec (get s)).reads s r);
    consumes = Consumes-bind decode decode_rest _ _ c.consumes (λ a cs (v, e).
        Consumes-mono _ ((rest_codec a).consumes)
          (λ s cs' (r, e'). let g = get-eq a s r in ((rw g v, rw g r), rw (g, e, e'))));
    streams = Streams-bind decode decode_rest c.streams (λ a. (rest_codec a).streams);
  }

module _ {E A S : Type 0} {IsValid : A → Type 0} {encode : A → Encoded} {decode : Decoder E A}
    (c : IsCodec IsValid encode decode) (get : S → A) (make : A → S)
    (get-make : (a : A) → get (make a) ≡ a) where
  -- The last field of a struct.
  pub IsCodec-last :
      IsCodec
        (λ s. IsValid (get s) × (s ≡ make (get s)))
        (λ s. encode (get s))
        (decode >>= λ a. pure (make a))
  IsCodec-last =
      IsCodec-wrap c _ make get (λ s (v, _). v) (λ a v. (rw get-make v, rw get-make))
        (λ s (_, e). sym e) (λ a v. get-make a)

-- The same codec, with its valid values described in another way.
pub IsCodec-iff :
    {E A : Type 0} {IsValid : A → Type 0} {encode : A → Encoded} {decode : Decoder E A}
    (IsValid' : A → Type 0)
    → IsCodec IsValid encode decode
    → ((a : A) → IsValid' a → IsValid a)
    → ((a : A) → IsValid a → IsValid' a)
    → IsCodec IsValid' encode decode
IsCodec-iff IsValid' c f g = record {
  counted = λ a v. c.counted a (f a v);
  writes_bytes = λ a v. c.writes_bytes a (f a v);
  reads = λ a v. c.reads a (f a v);
  consumes = Consumes-mono _ c.consumes (λ a cs (v, e). (g a v, e));
  streams = c.streams;
}

-- A loop over a counted sequence of items.
module _ {E A : Type 0} {IsValid : A → Type 0} {encode : A → Encoded} {decode : Decoder E A}
    (c : IsCodec IsValid encode decode) where
  pub items_counted :
      (xs : List A)
      → All IsValid xs
      → (encode_items encode xs).counter ≡ length (encode_items encode xs).bytes
  unfolding encode_items
  items_counted [] v = refl
  items_counted (x ∷ xs) (v, vs) =
      rw (length-append (encode x).bytes (encode_items encode xs).bytes)
        (omega (arith, c.counted x v, items_counted xs vs))

  pub items_write_bytes : (xs : List A) → All IsValid xs → AreBytes (encode_items encode xs).bytes
  unfolding encode_items
  items_write_bytes [] v = tt
  items_write_bytes (x ∷ xs) (v, vs) =
      AreBytes-append _ _ (c.writes_bytes x v) (items_write_bytes xs vs)

  pub items_read :
      (xs : List A)
      → All IsValid xs
      → Reads (decode_items decode (length xs)) (encode_items encode xs).bytes xs
  unfolding decode_items encode_items
  items_read [] v rest = refl
  items_read (x ∷ xs) (v, vs) rest =
      rw (append_assoc, c.reads x v ((encode_items encode xs).bytes ++ rest), items_read xs vs rest)

  pub items_consume :
      (n : ℕ)
      → Consumes
          (decode_items decode n)
          (λ xs cs. (length xs ≡ n) × All IsValid xs × (cs ≡ (encode_items encode xs).bytes))
  unfolding decode_items encode_items
  items_consume zero = Consumes-pure _ [] (refl, tt, refl)
  items_consume (suc n) = Consumes-bind decode _ _ _ c.consumes λ x cs (v, e).
      Consumes-bind (decode_items decode n) _ _ _ (items_consume n)
        λ xs cs' (l, vs, e'). Consumes-pure _ (x ∷ xs) (ap suc l, (v, vs), rw (append-nil, e, e'))

  pub items_stream : (n : ℕ) → Streams (decode_items decode n)
  unfolding decode_items
  items_stream zero = Streams-pure []
  items_stream (suc n) =
      Streams-bind decode _ c.streams
        λ x. Streams-bind (decode_items decode n) _ (items_stream n) λ xs. Streams-pure (x ∷ xs)
