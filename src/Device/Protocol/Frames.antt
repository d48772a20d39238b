-- ===== src/Device/Protocol/Frames.antt =====
-- The bytes of `frame`, fed to `SerialParser`.
use mathlib.Core.List.{append_assoc, append-nil}
use openathan.Base.{
  ℕ, suc, ◌+◌, ◌-◌, ◌%◌, ◌≤◌, ◌≡◌, refl, ap, ◌∙◌, sym, subst, Bool, true, false, ◌||◌, Option, none,
  some, List, [], ◌∷◌, ◌++◌, length, get_or, ltb, leb, ◌==◌, list_eq, if◌then◌else◌, length-append,
  take-append, arith,
}
use openathan.Device.Protocol.{
  Frame, SerialParser, feed, feed_long, trim, frame, sum, oathan, improv,
}

abbrev cons_some : Option Frame → List Frame → List Frame
cons_some none fs = fs
cons_some (some f) fs = f ∷ fs

-- Bytes from the `i`th on, with the time of each, and the frames that they give.
unfoldable pub feed_all : (ℕ → ℕ) → SerialParser → List ℕ → ℕ → SerialParser × List Frame
feed_all time p [] i = (p, [])
feed_all time p (x ∷ xs) i =
    let r = feed p x (time i) in
    let rest = feed_all time r.0 xs (suc i) in (rest.0, cons_some r.1 rest.1)

-- Time goes forward, and no pause is longer than a second.
abbrev pub Steady : (ℕ → ℕ) → Type 0
Steady time = (i : ℕ) → (time i ≤ time (suc i)) × (time (suc i) - time i ≤ 1000)

abbrev parser : List ℕ → ℕ → SerialParser
parser bytes last = record { bytes = bytes; last = last }

-- What a byte behind others does.
feed_short :
    (bytes : List ℕ) (last b t : ℕ)
    → last ≤ t
    → t - last ≤ 1000
    → leb (length (bytes ++ b ∷ [])) 6 ≡ true
    → trim (bytes ++ b ∷ []) ≡ bytes ++ b ∷ []
    → feed (parser bytes last) b t ≡ (parser (bytes ++ b ∷ []) t, none)
unfolding feed
feed_short bytes last b t h k short whole = ground (arith, h, k, short, whole)

feed_behind :
    (bytes : List ℕ) (last b t : ℕ)
    → last ≤ t
    → t - last ≤ 1000
    → leb (length (bytes ++ b ∷ [])) 6 ≡ false
    → feed (parser bytes last) b t ≡ feed_long (bytes ++ b ∷ []) t
unfolding feed
feed_behind bytes last b t h k long = ground (arith, h, k, long)

feed_first :
    (last b t : ℕ) → trim (b ∷ []) ≡ b ∷ [] → feed (parser [] last) b t ≡ (parser (b ∷ []) t, none)
unfolding feed
feed_first last b t h = ground (arith, h)

get_or-append_last : (d : List ℕ) (s : ℕ) → get_or (d ++ s ∷ []) (length d) 0 ≡ s
get_or-append_last [] s = refl
get_or-append_last (x ∷ xs) s = get_or-append_last xs s

feed_all-next :
    (time : ℕ → ℕ) (p q : List ℕ) (x : ℕ) (xs : List ℕ) (i : ℕ)
    → feed (parser p (time i)) x (time (suc i)) ≡ (parser q (time (suc i)), none)
    → feed_all time (parser p (time i)) (x ∷ xs) (suc i)
      ≡ feed_all time (parser q (time (suc i))) xs (suc (suc i))
unfolding feed_all
feed_all-next time p q x xs i h = rw h refl

-- One frame and no bytes left.
abbrev Gives : Frame → SerialParser × List Frame → Type 0
Gives f r = (r.0.bytes ≡ []) × (r.1 ≡ f ∷ [])

feed_newline : (last t : ℕ) → feed (parser [] last) b'\n' t ≡ (parser [] t, none)
unfolding feed trim list_eq
feed_newline last t = ground arith

-- Behind six letters.
module _ (a b c d e f type size : ℕ) where
  abbrev headed : List ℕ → List ℕ
  headed xs = a ∷ b ∷ c ∷ d ∷ e ∷ f ∷ 1 ∷ type ∷ size ∷ xs

  abbrev whole : List ℕ → Frame
  whole xs = record { extension = a == b'O'; type = type; data_bytes = xs }

  feed_long_pending :
      (xs : List ℕ) (t : ℕ)
      → length xs ≤ size
      → feed_long (headed xs) t ≡ (parser (headed xs) t, none)
  unfolding feed_long
  feed_long_pending xs t h = ground (arith, h)

  feed_long_complete :
      (xs : List ℕ) (t : ℕ)
      → length xs ≡ size
      → feed_long (headed (xs ++ sum (headed xs) ∷ [])) t ≡ (parser [] t, some (whole xs))
  unfolding feed_long
  feed_long_complete xs t h =
      let n = length (headed (xs ++ sum (headed xs) ∷ [])) in
      let long = length-append xs (sum (headed xs) ∷ []) in
      let enough : (ltb n 9 || ltb n (size + 10)) ≡ false = ground (arith, long, h) in
      let last : n - 1 ≡ length (headed xs) = omega (arith, long) in
      let few : n - 10 ≡ length xs = omega (arith, long) in
      rw
        (
          enough,
          last,
          few,
          take-append (length xs) xs (sum (headed xs) ∷ []) refl,
          get_or-append_last xs (sum (headed xs)),
        )
        (ground arith)

  behind_header : (xs : List ℕ) → leb (length (headed xs)) 6 ≡ false
  behind_header xs = ground arith

  feed-headed :
      (xs : List ℕ) (last x t : ℕ)
      → last ≤ t
      → t - last ≤ 1000
      → feed (parser (headed xs) last) x t ≡ feed_long (headed (xs ++ x ∷ [])) t
  feed-headed xs last x t h k = feed_behind (headed xs) last x t h k (behind_header (xs ++ x ∷ []))

  module _ (time : ℕ → ℕ) (steady : Steady time) where
    feed_all-end :
        (xs : List ℕ) (i : ℕ)
        → length xs ≡ size
        → Gives
            (whole xs)
            (feed_all time (parser (headed xs) (time i)) (sum (headed xs) ∷ b'\n' ∷ []) (suc i))
    unfolding feed_all
    feed_all-end xs i n =
        rw
          (
            feed-headed xs (time i) (sum (headed xs)) (time (suc i)) (steady i).0 (steady i).1,
            feed_long_complete xs (time (suc i)) n,
            feed_newline (time (suc i)) (time (suc (suc i))),
          )
          (refl, refl)

    -- The data and the end, behind the part of the data that came.
    feed_all-data :
        (xs came more : List ℕ) (i : ℕ)
        → came ++ more ≡ xs
        → length xs ≡ size
        → Gives (whole xs) (
            feed_all time
              (parser (headed came) (time i))
              (more ++ sum (headed xs) ∷ b'\n' ∷ [])
              (suc i))
    feed_all-data xs came [] i is_all n =
        let same : came ≡ xs = sym (append-nil came) ∙ is_all in rw same (feed_all-end xs i n)
    feed_all-data xs came (m ∷ more) i is_all n =
        let so_far : (came ++ m ∷ []) ++ more ≡ xs = append_assoc came (m ∷ []) more ∙ is_all in
        let short : length (came ++ m ∷ []) ≤ size =
          omega (
            arith,
            n,
            ap (λ (ys : List ℕ). length ys) so_far,
            length-append (came ++ m ∷ []) more,
          ) in
        subst (Gives (whole xs))
          (sym (
            feed_all-next time (headed came) (headed (came ++ m ∷ [])) m _ i (
              feed-headed came (time i) m (time (suc i)) (steady i).0 (steady i).1
              ∙ feed_long_pending (came ++ m ∷ []) (time (suc i)) short)))
          (feed_all-data xs (came ++ m ∷ []) more (suc i) so_far n)

pending_version :
    (a b c d e f t : ℕ)
    → feed_long (a ∷ b ∷ c ∷ d ∷ e ∷ f ∷ 1 ∷ []) t
      ≡ (parser (a ∷ b ∷ c ∷ d ∷ e ∷ f ∷ 1 ∷ []) t, none)
unfolding feed_long
pending_version a b c d e f t = refl

pending_type :
    (a b c d e f type t : ℕ)
    → feed_long (a ∷ b ∷ c ∷ d ∷ e ∷ f ∷ 1 ∷ type ∷ []) t
      ≡ (parser (a ∷ b ∷ c ∷ d ∷ e ∷ f ∷ 1 ∷ type ∷ []) t, none)
unfolding feed_long
pending_type a b c d e f type t = refl

-- The nine bytes in front of the data, one after another.
module _ (time : ℕ → ℕ) (steady : Steady time) where
  letter :
      (p : List ℕ) (x i : ℕ)
      → leb (length (p ++ x ∷ [])) 6 ≡ true
      → trim (p ++ x ∷ []) ≡ p ++ x ∷ []
      → feed (parser p (time i)) x (time (suc i)) ≡ (parser (p ++ x ∷ []) (time (suc i)), none)
  letter p x i h k = feed_short p (time i) x (time (suc i)) (steady i).0 (steady i).1 h k

  header_byte :
      (p : List ℕ) (x i : ℕ)
      → leb (length (p ++ x ∷ [])) 6 ≡ false
      → feed_long (p ++ x ∷ []) (time (suc i)) ≡ (parser (p ++ x ∷ []) (time (suc i)), none)
      → feed (parser p (time i)) x (time (suc i)) ≡ (parser (p ++ x ∷ []) (time (suc i)), none)
  header_byte p x i h k = feed_behind p (time i) x (time (suc i)) (steady i).0 (steady i).1 h ∙ k

  -- Five letters behind the first, in front of the version, the type and the size.
  feed_all-header :
      (b c d e f type size : ℕ) (xs : List ℕ) (a : ℕ)
      → trim (a ∷ b ∷ []) ≡ a ∷ b ∷ []
      → trim (a ∷ b ∷ c ∷ []) ≡ a ∷ b ∷ c ∷ []
      → trim (a ∷ b ∷ c ∷ d ∷ []) ≡ a ∷ b ∷ c ∷ d ∷ []
      → trim (a ∷ b ∷ c ∷ d ∷ e ∷ []) ≡ a ∷ b ∷ c ∷ d ∷ e ∷ []
      → trim (a ∷ b ∷ c ∷ d ∷ e ∷ f ∷ []) ≡ a ∷ b ∷ c ∷ d ∷ e ∷ f ∷ []
      → feed_all time (parser (a ∷ []) (time 0)) (b ∷ c ∷ d ∷ e ∷ f ∷ 1 ∷ type ∷ size ∷ xs) 1
        ≡ feed_all time (parser (headed a b c d e f type size []) (time 8)) xs 9
  feed_all-header b c d e f type size xs a t2 t3 t4 t5 t6 =
      feed_all-next time (a ∷ []) _ b _ 0 (letter (a ∷ []) b 0 refl t2)
      ∙ feed_all-next time (a ∷ b ∷ []) _ c _ 1 (letter (a ∷ b ∷ []) c 1 refl t3)
      ∙ feed_all-next time (a ∷ b ∷ c ∷ []) _ d _ 2 (letter (a ∷ b ∷ c ∷ []) d 2 refl t4)
      ∙ feed_all-next time (a ∷ b ∷ c ∷ d ∷ []) _ e _ 3 (letter (a ∷ b ∷ c ∷ d ∷ []) e 3 refl t5)
      ∙ feed_all-next time (a ∷ b ∷ c ∷ d ∷ e ∷ []) _ f _ 4
          (letter (a ∷ b ∷ c ∷ d ∷ e ∷ []) f 4 refl t6)
      ∙ feed_all-next time (a ∷ b ∷ c ∷ d ∷ e ∷ f ∷ []) _ 1 _ 5
          (header_byte (a ∷ b ∷ c ∷ d ∷ e ∷ f ∷ []) 1 5 refl (pending_version a b c d e f (time 6)))
      ∙ feed_all-next time (a ∷ b ∷ c ∷ d ∷ e ∷ f ∷ 1 ∷ []) _ type _ 6 (
          header_byte (a ∷ b ∷ c ∷ d ∷ e ∷ f ∷ 1 ∷ []) type 6 refl
            (pending_type a b c d e f type (time 7)))
      ∙ feed_all-next time (a ∷ b ∷ c ∷ d ∷ e ∷ f ∷ 1 ∷ type ∷ []) _ size _ 7 (
          header_byte (a ∷ b ∷ c ∷ d ∷ e ∷ f ∷ 1 ∷ type ∷ []) size 7 refl
            (feed_long_pending a b c d e f type size [] (time 8) (omega arith)))

  start :
      (a last : ℕ) (xs : List ℕ)
      → trim (a ∷ []) ≡ a ∷ []
      → feed_all time (parser [] last) (a ∷ xs) 0 ≡ feed_all time (parser (a ∷ []) (time 0)) xs 1
  unfolding feed_all
  start a last xs h = rw (feed_first last a (time 0) h) refl

  frame_bytes :
      (extension : Bool) (type : ℕ) (xs : List ℕ)
      → length xs ≤ 255
      → let front = (if extension then oathan else improv) ++ (1 ∷ type ∷ length xs ∷ xs) in
        frame extension type xs ≡ front ++ sum front ∷ b'\n' ∷ []
  unfolding frame
  frame_bytes extension type xs h =
      let size : length xs % 256 ≡ length xs = omega arith in
      let fits : ltb 255 (length xs) ≡ false = ground (arith, h) in rw (size, fits) refl

  -- A frame of at most 255 bytes of data whose bytes come without a pause of more than a second,
  -- the first one at any time, gives exactly this frame, and leaves a parser without bytes.
  pub feed_all-frame :
      (extension : Bool) (type : ℕ) (data_bytes : List ℕ) (last : ℕ)
      → length data_bytes ≤ 255
      → let r = feed_all time (parser [] last) (frame extension type data_bytes) 0 in
        (r.0.bytes ≡ [])
        × (r.1 ≡ record { extension = extension; type = type; data_bytes = data_bytes } ∷ [])
  unfolding trim list_eq
  feed_all-frame true type xs last h =
      subst (Gives (record { extension = true; type = type; data_bytes = xs }))
        (sym (
          ap (λ (bytes : List ℕ). feed_all time (parser [] last) bytes 0)
            (frame_bytes true type xs h)
          ∙ start b'O' last _ refl
          ∙ feed_all-header b'A' b'T' b'H' b'A' b'N' type (length xs) _ b'O' refl refl refl refl
              refl))
        (feed_all-data b'O' b'A' b'T' b'H' b'A' b'N' type (length xs) time steady xs [] xs 8 refl
          refl)
  feed_all-frame false type xs last h =
      subst (Gives (record { extension = false; type = type; data_bytes = xs }))
        (sym (
          ap (λ (bytes : List ℕ). feed_all time (parser [] last) bytes 0)
            (frame_bytes false type xs h)
          ∙ start b'I' last _ refl
          ∙ feed_all-header b'M' b'P' b'R' b'O' b'V' type (length xs) _ b'I' refl refl refl refl
              refl))
        (feed_all-data b'I' b'M' b'P' b'R' b'O' b'V' type (length xs) time steady xs [] xs 8 refl
          refl)
