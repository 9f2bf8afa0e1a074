-- ===== src/Decoder/Pieces.antt =====
-- The payload branch of `feed`, in two pieces and as one.
use assignment_logger_analyz.Prelude.{
  ℕ, zero, suc, ◌+◌, ◌-◌, ◌≤◌, ◌<◌, ◌≡◌, refl, sym, ap, ◌∙◌, Bool, true, false, ltb, if◌then◌else◌,
  lt→ltb, [], ◌++◌, Bytes, length, take, drop, min, length-append, length-take, length-drop,
  take-min, take-append, take_all, drop-append_left, arith,
}
use assignment_logger_analyz.Decoder.{
  need_more, Decoder, copy_at, Fed, fed, take_payload, end_payload, feed_payload,
}
use assignment_logger_analyz.Decoder.Copy.{copy_at-nil, copy_at-append}

-- What is fed after `n` bytes that sent `chunk` to the sink.
abbrev pub after : ℕ → Bytes → Fed → Fed
after n chunk r = record r { consumed = n + r.consumed; chunk = chunk ++ r.chunk }

pub end_payload-after :
    (d : Decoder) (n m : ℕ) (c e : Bytes)
    → end_payload d (n + m) (c ++ e) ≡ after n c (end_payload d m e)
unfolding end_payload
end_payload-after d n m c e = ground arith

-- The bytes of payload that a decoder takes, and what it does with them.
abbrev pub pay : Decoder → Bytes → ℕ → Fed
pay d bytes k =
    end_payload (take_payload d bytes) (k + length bytes) (if d.streaming then bytes else [])

take_payload-nil : (d : Decoder) → take_payload d [] ≡ d
unfolding take_payload
take_payload-nil d = λ i. record d { payload = same d.streaming i; payload_got = got i }
  where
    got : d.payload_got + 0 ≡ d.payload_got
    got = omega arith

    same : (b : Bool) → (if b then d.payload else copy_at d.payload d.payload_got []) ≡ d.payload
    same true = refl
    same false = copy_at-nil d.payload d.payload_got

-- The test `take > 0` changes nothing.
pay-test :
    (d : Decoder) (x : Bytes) (n k : ℕ)
    → n ≡ length (take n x)
    → (if ltb 0 n
        then end_payload (take_payload d (take n x)) (k + n) (if d.streaming then take n x else [])
        else end_payload d k [])
      ≡ pay d (take n x) k
pay-test d x zero k e = sym (
    ap (λ t. end_payload t (k + 0) (if d.streaming then [] else [])) (take_payload-nil d)
    ∙ ap (λ (t : ℕ). end_payload d t (if d.streaming then [] else [])) (omega arith)
    ∙ none d.streaming)
  where
    none : (b : Bool) → end_payload d k (if b then [] else []) ≡ end_payload d k []
    none true = refl
    none false = refl
pay-test d x (suc n) k e = rw (lt→ltb 0 (suc n) (omega arith)) (
    ap
      (λ (t : ℕ).
        end_payload (take_payload d (take (suc n) x)) (k + t)
          (if d.streaming then take (suc n) x else []))
      e)

pub feed_payload-pay :
    (d : Decoder) (piece : Bytes) (k : ℕ)
    → feed_payload d piece k ≡ pay d (take (d.header.payload_len - d.payload_got) (drop k piece)) k
unfolding feed_payload
feed_payload-pay d piece k =
    let want : ℕ = d.header.payload_len - d.payload_got in
    let n : ℕ = min want (length piece - k) in
    let x : Bytes = drop k piece in
    pay-test d x n k (omega (arith, length-take n x, length-drop k piece))
    ∙ ap (λ t. pay d t k) (sym (take-min n want x (omega (arith, length-drop k piece))))

-- The buffer has room up to where the next byte goes, if it is used.
abbrev pub Room : Decoder → Type 0
Room d = d.streaming ≡ false → d.payload_got ≤ length d.payload

take_payload-append :
    (d : Decoder) (x y : Bytes)
    → Room d
    → take_payload (take_payload d x) y ≡ take_payload d (x ++ y)
unfolding take_payload
take_payload-append d x y h = ground (
  arith,
  length-append x y,
  λ (q : d.payload_got ≤ length d.payload). copy_at-append d.payload x d.payload_got q y,
)

sent : Bool → Bytes → Bytes
sent b x = if b then x else []

sent-append : (b : Bool) (x y : Bytes) → sent b (x ++ y) ≡ sent b x ++ sent b y
unfolding sent
sent-append true x y = refl
sent-append false x y = refl

pay-append :
    (d : Decoder) (x y : Bytes) (k n : ℕ)
    → Room d
    → n ≡ k + length x
    → pay d (x ++ y) k ≡ after n (if d.streaming then x else []) (pay (take_payload d x) y 0)
unfolding take_payload sent
pay-append d x y k n h e =
    ap (λ t. end_payload t (k + length (x ++ y)) (sent d.streaming (x ++ y)))
      (sym (take_payload-append d x y h))
    ∙ ap (λ (t : ℕ). end_payload (take_payload (take_payload d x) y) t (sent d.streaming (x ++ y)))
        (omega (arith, length-append x y))
    ∙ ap (end_payload (take_payload (take_payload d x) y) (n + (0 + length y)))
        (sent-append d.streaming x y)
    ∙ end_payload-after (take_payload (take_payload d x) y) n (0 + length y) (sent d.streaming x)
        (sent d.streaming y)

end_payload_more :
    (d : Decoder) (n : ℕ) (c : Bytes)
    → (end_payload d n c).status ≡ need_more
    → (end_payload d n c ≡ fed d need_more n c) × (d.payload_got < d.header.payload_len)
unfolding end_payload
end_payload_more d n c st = ground arith

-- A call that ends for want of more took all that was behind its `k` bytes.
pub feed_payload_more :
    (d : Decoder) (a : Bytes) (k : ℕ)
    → k ≤ length a
    → (feed_payload d a k).status ≡ need_more
    → (feed_payload d a k
        ≡ fed
            (take_payload d (drop k a))
            need_more
            (length a)
            (if d.streaming then drop k a else []))
      × (d.payload_got + length (drop k a) < d.header.payload_len)
unfolding take_payload
feed_payload_more d a k h st = (
  feed_payload-pay d a k
      ∙ ended.0
      ∙ counted
      ∙ ap (λ t. fed (take_payload d t) need_more (length a) (if d.streaming then t else [])) all,
  omega (arith, ended.1, ap length all),
)
  where
    want : ℕ
    want = d.header.payload_len - d.payload_got

    taken : Bytes
    taken = take want (drop k a)

    ended :
        (pay d taken k
          ≡ fed
              (take_payload d taken)
              need_more
              (k + length taken)
              (if d.streaming then taken else []))
        × (d.payload_got + length taken < d.header.payload_len)
    ended = end_payload_more (take_payload d taken) _ _ (rw (feed_payload-pay d a k) at st)

    all : taken ≡ drop k a
    all = (take_all want (drop k a) (omega (arith, ended.1, length-take want (drop k a))))

    counted :
        fed (take_payload d taken) need_more (k + length taken) (if d.streaming then taken else [])
        ≡ fed (take_payload d taken) need_more (length a) (if d.streaming then taken else [])
    counted =
        ap (λ (t : ℕ). fed (take_payload d taken) need_more t (if d.streaming then taken else []))
          (omega (arith, ap length all, length-drop k a))

-- The pieces of payload, one call after the other.
pub feed_payload-append :
    (d : Decoder) (a b : Bytes) (k : ℕ)
    → Room d
    → k ≤ length a
    → (feed_payload d a k).status ≡ need_more
    → feed_payload d (a ++ b) k
      ≡ after (length a) (feed_payload d a k).chunk (feed_payload (feed_payload d a k).decoder b 0)
feed_payload-append d a b k room h st = rw (feed_payload_more d a k h st).0 (
    feed_payload-pay d (a ++ b) k
    ∙ ap (λ t. pay d (take want t) k) (drop-append_left k a b h)
    ∙ ap (λ t. pay d t k) (take-append want x b (omega (arith, short)))
    ∙ pay-append d x (take (want - length x) b) k (length a) room (omega (arith, length-drop k a))
    ∙ ap (after (length a) (if d.streaming then x else [])) (sym later))
  where
    want : ℕ
    want = d.header.payload_len - d.payload_got

    x : Bytes
    x = drop k a

    short : d.payload_got + length x < d.header.payload_len
    short = (feed_payload_more d a k h st).1

    later :
        feed_payload (take_payload d x) b 0 ≡ pay (take_payload d x) (take (want - length x) b) 0
    later =
        feed_payload-pay (take_payload d x) b 0
        ∙ ap (λ (t : ℕ). pay (take_payload d x) (take t b) 0) (unfold take_payload in omega arith)
