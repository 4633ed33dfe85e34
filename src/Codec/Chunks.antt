-- ===== src/Codec/Chunks.antt =====
-- A connection whose message callback is the codec's `onMessage`, and a stream that arrives in pieces.
use muduo_net_zxl.Prelude.{
  ℕ, suc, ◌+◌, ◌≤◌, ◌<◌, ◌≡◌, refl, sym, ap, ◌∙◌, inl, inr, true, Option, some, List, [], ◌∷◌, ◌++◌,
  map, arith, length, take, append_assoc, dec_lt, ◌>>=◌, length-append, ltb,
}
use muduo_net_zxl.Buffer.{Readv, got, readable_bytes, contents, max_size, extra_size}
use muduo_net_zxl.Buffer.Valid.{IsValid, length-contents}
use muduo_net_zxl.Buffer.Queue.{read_fd-Appended}
use muduo_net_zxl.TcpConnection.{Connection, handle_read, after_read, message_event}
use muduo_net_zxl.Codec.{Library, Outcome, message, on_message}
use muduo_net_zxl.Codec.Frame.{frame, length-body, length-frame}
use muduo_net_zxl.Codec.Receive.{Incomplete, AllKnown, frames, first_int, on_message-frames}
use muduo_net_zxl.Codec.Cut.{take-frame-Incomplete}
use muduo_net_zxl.Codec.Growth.{on_message-SameArray}

take-length_lem :
    {A : Type 0} (xs ys zs ws : List A)
    → xs ++ ys ≡ zs ++ ws
    → length xs ≤ length zs
    → xs ≡ take (length xs) zs
take-length_lem [] ys zs ws e h = refl
take-length_lem (x ∷ xs) ys (z ∷ zs) ws e h =
    let e' : xs ++ ys ≡ zs ++ ws = cc in
    let t = take-length_lem xs ys zs ws e' (omega (arith, h)) in cc
take-length_lem (x ∷ xs) ys [] ws e h = absurd (omega (arith, h))

-- The longer of two beginnings of one list.
behind_lem :
    {A : Type 0} (xs ys zs ws : List A)
    → xs ++ ys ≡ zs ++ ws
    → length zs ≤ length xs
    → (us : List A) × (xs ≡ zs ++ us) × (us ++ ys ≡ ws)
behind_lem xs ys [] ws e h = (xs, refl, e)
behind_lem (x ∷ xs) ys (z ∷ zs) ws e h =
    let e' : xs ++ ys ≡ zs ++ ws = cc in
    let (us, p, q) = behind_lem xs ys zs ws e' (omega (arith, h)) in (us, cc, q)
behind_lem [] ys (z ∷ zs) ws e h = absurd (omega (arith, h))

abbrev pub joined : List (List ℕ) → List ℕ
joined [] = []
joined (xs ∷ xss) = xs ++ joined xss

-- No piece is empty, which would be the end of the stream, and none larger than what `readFd` always
-- has room for.
abbrev pub Pieces : List (List ℕ) → Type 0
Pieces [] = Unit {0}
Pieces (xs ∷ xss) = (0 < length xs) × (length xs ≤ extra_size) × Pieces xss

module _ {Message : Type 0} (lib : Library Message) where
  -- A beginning of a stream of frames is some frames and an incomplete rest.
  record Split (ms : List Message) (p rest : List ℕ) : Type 0 where
    whole : List Message
    later : List Message
    part : List ℕ
    both : ms ≡ whole ++ later
    known : AllKnown lib whole
    known_later : AllKnown lib later
    begins : p ≡ frames lib whole ++ part
    incomplete : Incomplete part
    continues : part ++ rest ≡ frames lib later

  split :
      (ms : List Message) (p rest : List ℕ)
      → p ++ rest ≡ frames lib ms
      → AllKnown lib ms
      → Split ms p rest
  unfolding frames
  split [] p rest e k =
      let l = length-append p rest in
      record {
        whole = [];
        later = [];
        part = p;
        both = refl;
        known = tt;
        known_later = tt;
        begins = refl;
        incomplete = inl (omega (arith, l, ap length e));
        continues = e;
      }
  split (m ∷ ms) p rest e (k, ks) = elim (dec_lt (length p) (length (frame lib m))) [
    | yes short ↦ record {
      whole = [];
      later = m ∷ ms;
      part = p;
      both = refl;
      known = tt;
      known_later = (k, ks);
      begins = refl;
      incomplete =
          rw (take-length_lem p rest (frame lib m) (frames lib ms) e (omega (arith, short)))
            (take-frame-Incomplete lib m (length p) k short);
      continues = e;
    }
    | no long ↦
        let (us, x, y) = behind_lem p rest (frame lib m) (frames lib ms) e (omega (arith, long)) in
        let s = split ms us rest y ks in
        record {
          whole = m ∷ s.whole;
          later = s.later;
          part = s.part;
          both = ap (λ l. m ∷ l) s.both;
          known = (k, s.known);
          known_later = s.known_later;
          begins =
              x
              ∙ ap (◌++◌ (frame lib m)) s.begins
              ∙ sym (append_assoc (frame lib m) (frames lib s.whole) s.part);
          incomplete = s.incomplete;
          continues = s.continues;
        }
  ]

  length-frames : (ms : List Message) → length ms ≤ length (frames lib ms)
  unfolding frames
  length-frames [] = omega arith
  length-frames (m ∷ ms) =
      omega
        (arith, length-frames ms, length-append (frame lib m) (frames lib ms), length-frame lib m)

  -- No whole frame is incomplete.
  pub frames-Incomplete :
      (ms : List Message) → AllKnown lib ms → Incomplete (frames lib ms) → ms ≡ []
  unfolding frames
  frames-Incomplete [] k i = refl
  frames-Incomplete (m ∷ ms) k (inl short) = absurd (
      omega (
        arith,
        short,
        length-append (frame lib m) (frames lib ms),
        length-frame lib m,
        length-body lib m,
        k.0.named,
      ))
  frames-Incomplete (m ∷ ms) k (inr (low, high, more)) = absurd (
      omega (
        arith,
        more,
        first_int lib m k.0 (frames lib ms),
        length-append (frame lib m) (frames lib ms),
        length-frame lib m,
      ))

  -- `TcpConnection::handleRead`, where the message callback is the codec's `onMessage`.
  unfoldable pub on_readable : Connection → Readv → Option (List (Outcome lib) × Connection)
  on_readable c r = do
    c' ← handle_read c r
    o ← on_message lib (suc (readable_bytes c'.input)) c'.input
    some (o.0, record c' { input = o.1 })

  -- A stream that arrives in pieces, each made known by a readable event.
  unfoldable pub receive : List (List ℕ) → Connection → Option (List (Outcome lib) × Connection)
  receive [] c = some ([], c)
  receive (xs ∷ xss) c = do o ← on_readable c (got xs); r ← receive xss o.1; some (o.0 ++ r.0, r.1)

  pub record Readable (c : Connection) (p : List ℕ) (room : ℕ) : Type 0 where
    pub valid : IsValid c.input
    pub bytes : contents c.input ≡ p
    pub small : length c.input.buffer + room + extra_size ≤ max_size

  on_readable-frames :
      (c : Connection) (p xs : List ℕ) (room : ℕ) (ms : List Message) (q : List ℕ)
      → Readable c p (length xs + room)
      → 0 < length xs
      → length xs ≤ extra_size
      → p ++ xs ≡ frames lib ms ++ q
      → AllKnown lib ms
      → Incomplete q
      → (c' : Connection) × (on_readable c (got xs) ≡ some (map message ms, c'))
        × Readable c' q room
  unfolding on_readable handle_read after_read
  on_readable-frames c p xs room ms q r more few e k i =
      let (b, f, a) =
        read_fd-Appended c.input xs r.valid (omega (arith, few)) (omega (arith, r.small)) in
      let bytes : contents b ≡ frames lib ms ++ q = a.bytes ∙ ap (λ l. l ++ xs) r.bytes ∙ e in
      let l = ap length bytes ∙ length-append (frames lib ms) q in
      let (d, o, v, z) =
        on_message-frames lib b ms q (suc (readable_bytes b)) a.valid bytes k i
          (omega (arith, l, length-frames ms, length-contents a.valid)) in
      let s = on_message-SameArray lib (suc (readable_bytes b)) b (map message ms) d o in
      let t : ltb 0 (length xs) ≡ true = ground (arith, more) in
      (
        record c { input = d; events = c.events ++ message_event (contents b) ∷ [] },
        rw (f, ◌>>=◌) (rw t (rw (o, ◌>>=◌) refl)),
        record { valid = v; bytes = z; small = omega (arith, ap length s, a.size, r.small) },
      )

  abbrev messages : List Message → List (Outcome lib)
  messages ms = map message ms

  map-message : (ms ns : List Message) → messages (ms ++ ns) ≡ messages ms ++ messages ns
  map-message [] ns = refl
  map-message (m ∷ ms) ns = ap (λ (l : List (Outcome lib)). message m ∷ l) (map-message ms ns)

  -- What the messages of a stream become, when a beginning of it arrived: all whole ones were given to the
  -- owner, and the rest of it waits.
  pub record Received (ms : List Message) (rest : List ℕ) (o : List (Outcome lib)) (c : Connection)
      : Type 0 where
    pub whole : List Message
    pub later : List Message
    pub both : ms ≡ whole ++ later
    pub given : o ≡ map message whole
    pub waiting : contents c.input ++ rest ≡ frames lib later
    pub incomplete : Incomplete (contents c.input)
    pub known_later : AllKnown lib later

  pub receive_lem :
      (xss : List (List ℕ)) (c : Connection) (p : List ℕ) (ms : List Message) (rest : List ℕ)
      → Readable c p (length (joined xss))
      → Incomplete p
      → Pieces xss
      → p ++ (joined xss ++ rest) ≡ frames lib ms
      → AllKnown lib ms
      → (o : List (Outcome lib)) × (c' : Connection) × (receive xss c ≡ some (o, c'))
        × Received ms rest o c'
  unfolding receive
  receive_lem [] c p ms rest r i x e k = (
    [],
    c,
    refl,
    record {
      whole = [];
      later = ms;
      both = refl;
      given = refl;
      waiting = ap (λ l. l ++ rest) r.bytes ∙ e;
      incomplete = rw r.bytes i;
      known_later = k;
    },
  )
  receive_lem (xs ∷ xss) c p ms rest r i (more, few, x) e k =
      let s =
        split ms (p ++ xs) (joined xss ++ rest)
          (append_assoc p xs (joined xss ++ rest)
            ∙ ap (◌++◌ p) (sym (append_assoc xs (joined xss) rest))
            ∙ e)
          k in
      let (c1, f, r1) =
        on_readable-frames c p xs (length (joined xss)) s.whole s.part
          (record {
            valid = r.valid;
            bytes = r.bytes;
            small = omega (arith, r.small, length-append xs (joined xss));
          })
          more few s.begins s.known s.incomplete in
      let (o, c2, g, d) =
        receive_lem xss c1 s.part s.later rest r1 s.incomplete x s.continues s.known_later in
      (
        map message s.whole ++ o,
        c2,
        rw (f, ◌>>=◌) (rw (g, ◌>>=◌) refl),
        record {
          whole = s.whole ++ d.whole;
          later = d.later;
          both = s.both ∙ ap (◌++◌ s.whole) d.both ∙ sym (append_assoc s.whole d.whole d.later);
          given = ap (◌++◌ (map message s.whole)) d.given ∙ sym (map-message s.whole d.whole);
          waiting = d.waiting;
          incomplete = d.incomplete;
          known_later = d.known_later;
        },
      )
