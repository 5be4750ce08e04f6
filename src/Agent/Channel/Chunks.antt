-- ===== src/Agent/Channel/Chunks.antt =====
-- The channel reads a stream of bytes: how the stream is cut into chunks does not matter.
use electrosphere.Base.{
  ℕ, zero, suc, ◌+◌, ◌-◌, ◌<◌, ◌≤◌, ◌≡◌, refl, ap, sym, ◌∙◌, true, false, List, [], ◌∷◌, ◌++◌,
  arith, length, take, drop, ltb, append_assoc, length-append, length-drop, Bool-cases, inl, inr,
  if◌then◌else◌,
}
use electrosphere.Base.Exec.{Result}
use electrosphere.Domain.Errors.{Thrown}
use electrosphere.Base.Words.{read_u32_be}
use electrosphere.Agent.Channel.{
  Channel, fail, frame_limit, oversized, settle, take_frame, receive, push,
}

take-append : {A : Type 0} (n : ℕ) (xs ys : List A) → n ≤ length xs → take n (xs ++ ys) ≡ take n xs
take-append zero xs ys h = refl
take-append (suc n) [] ys h = absurd (omega (arith, h))
take-append (suc n) (x ∷ xs) ys h = ap (◌∷◌ x) (take-append n xs ys (omega (arith, h)))

drop-append :
    {A : Type 0} (n : ℕ) (xs ys : List A) → n ≤ length xs → drop n (xs ++ ys) ≡ drop n xs ++ ys
drop-append zero xs ys h = refl
drop-append (suc n) [] ys h = absurd (omega (arith, h))
drop-append (suc n) (x ∷ xs) ys h = drop-append n xs ys (omega (arith, h))

read_u32_be-append :
    (xs ys : List ℕ) → ltb (length xs) 4 ≡ false → read_u32_be (xs ++ ys) ≡ read_u32_be xs
unfolding read_u32_be
read_u32_be-append [] ys h = ground arith
read_u32_be-append (a ∷ []) ys h = ground arith
read_u32_be-append (a ∷ b ∷ []) ys h = ground arith
read_u32_be-append (a ∷ b ∷ c ∷ []) ys h = ground arith
read_u32_be-append (a ∷ b ∷ c ∷ d ∷ xs) ys h = refl

module _ {R : Type 0} where
  -- What a channel shows: nothing reads the buffer of a closed channel.
  abbrev pub shown : Channel R → Channel R
  shown c = if c.closed then record c { buffer = [] } else c

  abbrev with_more : List ℕ → Channel R → Channel R
  with_more more c = record c { buffer = c.buffer ++ more }

  module _ (parse : List ℕ → Result R) where
    settle-more :
        (frame bytes more : List ℕ) (c : Channel R) (pending : List ℕ)
        → settle parse frame (record c { buffer = bytes ++ more }) pending
          ≡ with_more more (settle parse frame (record c { buffer = bytes }) pending)
    unfolding settle fail
    settle-more frame bytes more c [] = ground arith
    settle-more frame bytes more c (p ∷ pending) = refl

    length-settle :
        (frame : List ℕ) (c : Channel R) (pending : List ℕ)
        → (settle parse frame c pending).buffer ≡ c.buffer
    unfolding settle fail
    length-settle frame c [] = ground arith
    length-settle frame c (p ∷ pending) = refl

    length-take_frame :
        (size : ℕ) (c : Channel R)
        → length (take_frame parse size c).buffer ≡ length c.buffer - (size + 4)
    unfolding take_frame
    length-take_frame size c =
        ap (length) (
          length-settle (take (size + 4) c.buffer) (record c { buffer = drop (size + 4) c.buffer })
            c.pending)
        ∙ length-drop (size + 4) c.buffer

    take_frame-more :
        (size : ℕ) (more : List ℕ) (c : Channel R)
        → size + 4 ≤ length c.buffer
        → take_frame parse size (with_more more c) ≡ with_more more (take_frame parse size c)
    unfolding take_frame
    take_frame-more size more c h =
        rw (take-append (size + 4) c.buffer more h, drop-append (size + 4) c.buffer more h)
          (settle-more (take (size + 4) c.buffer) (drop (size + 4) c.buffer) more c c.pending)

    -- Fuel above the length of the buffer is enough.
    receive-fuel :
        (m n : ℕ) (c : Channel R)
        → length c.buffer < m
        → length c.buffer < n
        → receive parse m c ≡ receive parse n c
    unfolding receive
    receive-fuel zero n c h k = ground arith
    receive-fuel (suc m) zero c h k = ground arith
    receive-fuel (suc m) (suc n) c h k = ground (
      arith,
      receive-fuel m n (take_frame parse (read_u32_be c.buffer) c),
      length-take_frame (read_u32_be c.buffer) c,
    )

    -- What is left to do when more bytes come.
    resume : List ℕ → Channel R → Channel R
    resume more d =
        let buffer = d.buffer ++ more in
        if d.closed then d else receive parse (suc (length buffer)) (with_more more d)

    resume-going :
        (more : List ℕ) (d : Channel R)
        → d.closed ≡ false
        → resume more d ≡ receive parse (suc (length (d.buffer ++ more))) (with_more more d)
    unfolding resume
    resume-going more d going = ground (arith, going)

    resume-closed : (more : List ℕ) (d : Channel R) → d.closed ≡ true → resume more d ≡ d
    unfolding resume
    resume-closed more d closed = ground (arith, closed)

    shown-more :
        (more : List ℕ) (d : Channel R) → d.closed ≡ true → shown (with_more more d) ≡ shown d
    shown-more more d closed = rw closed

    module _ (m : ℕ) (c : Channel R) where
      receive-short : ltb (length c.buffer) 4 ≡ true → receive parse (suc m) c ≡ c
      unfolding receive
      receive-short short = ground (arith, short)

      module _ (long : ltb (length c.buffer) 4 ≡ false) where
        receive-over :
            ltb frame_limit (read_u32_be c.buffer) ≡ true
            → receive parse (suc m) c ≡ fail oversized c
        unfolding receive
        receive-over over = ground (arith, long, over)

        module _ (fits : ltb frame_limit (read_u32_be c.buffer) ≡ false) where
          receive-partial :
              ltb (length c.buffer) (read_u32_be c.buffer + 4) ≡ true → receive parse (suc m) c ≡ c
          unfolding receive
          receive-partial partial = ground (arith, long, fits, partial)

          module _ (whole : ltb (length c.buffer) (read_u32_be c.buffer + 4) ≡ false) where
            receive-last :
                (take_frame parse (read_u32_be c.buffer) c).closed ≡ true
                → receive parse (suc m) c ≡ take_frame parse (read_u32_be c.buffer) c
            unfolding receive
            receive-last last = ground (arith, long, fits, whole, last)

            receive-next :
                (take_frame parse (read_u32_be c.buffer) c).closed ≡ false
                → receive parse (suc m) c
                  ≡ receive parse m (take_frame parse (read_u32_be c.buffer) c)
            unfolding receive
            receive-next next = ground (arith, long, fits, whole, next)

    fail-more :
        (e : Thrown) (more : List ℕ) (c : Channel R)
        → c.closed ≡ false
        → ((fail e c).closed ≡ true) × (shown (fail e (with_more more c)) ≡ shown (fail e c))
    unfolding fail
    fail-more e more c going = rw going (refl, refl)

    -- A channel that waits for more bytes takes up where it stopped.
    receive-waits :
        (n m : ℕ) (more : List ℕ) (c : Channel R)
        → c.closed ≡ false
        → length (c.buffer ++ more) < m
        → receive parse n c ≡ c
        → shown (receive parse m (with_more more c)) ≡ shown (resume more (receive parse n c))
    receive-waits n m more c going k waits = ap (shown) (
        receive-fuel m (suc (length (c.buffer ++ more))) (with_more more c) k (omega arith)
        ∙ sym (resume-going more c going)
        ∙ ap (resume more) (sym waits))

    -- A channel that fails over its first frame fails over it with more bytes as well.
    receive-fails :
        (n m : ℕ) (more : List ℕ) (c d e : Channel R)
        → receive parse n c ≡ d
        → receive parse m (with_more more c) ≡ e
        → d.closed ≡ true
        → shown e ≡ shown d
        → shown (receive parse m (with_more more c)) ≡ shown (resume more (receive parse n c))
    receive-fails n m more c d e here there closed same =
        ap (shown) there
        ∙ same
        ∙ ap (shown) (sym (resume-closed more d closed) ∙ ap (resume more) (sym here))

    receive-more :
        (n m : ℕ) (more : List ℕ) (c : Channel R)
        → c.closed ≡ false
        → length c.buffer < n
        → length (c.buffer ++ more) < m
        → shown (receive parse m (with_more more c)) ≡ shown (resume more (receive parse n c))
    receive-more zero m more c going h k = absurd (omega (arith, h))
    receive-more (suc n) zero more c going h k = absurd (omega (arith, k))
    receive-more (suc n) (suc m) more c going h k = elim (Bool-cases (ltb (length c.buffer) 4)) [
      | inl short ↦ receive-waits (suc n) (suc m) more c going k (receive-short n c short)
      | inr long ↦
          let size : read_u32_be (c.buffer ++ more) ≡ read_u32_be c.buffer =
            read_u32_be-append c.buffer more long in
          let long' : ltb (length (c.buffer ++ more)) 4 ≡ false =
            ground (arith, long, length-append c.buffer more) in
          elim (Bool-cases (ltb frame_limit (read_u32_be c.buffer))) [
            | inl over ↦
                let (closed, same) = fail-more oversized more c going in
                receive-fails (suc n) (suc m) more c (fail oversized c)
                  (fail oversized (with_more more c)) (receive-over n c long over)
                  (receive-over m (with_more more c) long' (ap (ltb frame_limit) size ∙ over))
                  closed same
            | inr fits ↦ elim (Bool-cases (ltb (length c.buffer) (read_u32_be c.buffer + 4))) [
              | inl partial ↦
                  receive-waits (suc n) (suc m) more c going k
                    (receive-partial n c long fits partial)
              | inr whole ↦
                  let d = take_frame parse (read_u32_be c.buffer) c in
                  let moved : take_frame parse (read_u32_be (c.buffer ++ more)) (with_more more c)
                      ≡ with_more more d =
                    ap (λ k. take_frame parse k (with_more more c)) size
                    ∙ take_frame-more (read_u32_be c.buffer) more c (ground (arith, whole)) in
                  let fits' : ltb frame_limit (read_u32_be (c.buffer ++ more)) ≡ false =
                    ap (ltb frame_limit) size ∙ fits in
                  let whole' : ltb (length (c.buffer ++ more)) (read_u32_be (c.buffer ++ more) + 4)
                      ≡ false =
                    ground (arith, whole, size, length-append c.buffer more) in
                  let shorter = length-take_frame (read_u32_be c.buffer) c in
                  elim (Bool-cases d.closed) [
                    | inl last ↦
                        receive-fails (suc n) (suc m) more c d (with_more more d)
                          (receive-last n c long fits whole last)
                          (receive-last m (with_more more c) long' fits' whole'
                              (ap (λ x. x.closed) moved ∙ last)
                            ∙ moved)
                          last (shown-more more d last)
                    | inr next ↦
                        ap (shown) (
                          receive-next m (with_more more c) long' fits' whole'
                            (ap (λ x. x.closed) moved ∙ next)
                          ∙ ap (receive parse m) moved)
                        ∙ receive-more n m more d next (ground (arith, shorter, whole, h)) (
                            ground (
                              arith,
                              shorter,
                              whole,
                              k,
                              length-append c.buffer more,
                              length-append d.buffer more,
                            ))
                        ∙ ap (shown)
                            (ap (resume more) (sym (receive-next n c long fits whole next)))
                  ]
            ]
          ]
    ]

    push-resume : (a : List ℕ) (c : Channel R) → push parse a c ≡ resume a c
    unfolding push resume
    push-resume a c = refl

    -- A second chunk, for a channel that is not closed before the first.
    push_second :
        (a b : List ℕ) (c : Channel R)
        → c.closed ≡ false
        → shown (resume b (resume a c)) ≡ shown (resume (a ++ b) c)
    push_second a b c going =
        let same : with_more b (with_more a c) ≡ with_more (a ++ b) c =
          ap (λ bytes. record c { buffer = bytes }) (append_assoc c.buffer a b) in
        let size : length ((c.buffer ++ a) ++ b) ≡ length (c.buffer ++ (a ++ b)) =
          ap (length) (append_assoc c.buffer a b) in
        ap (λ x. shown (resume b x)) (resume-going a c going)
        ∙ sym (
            receive-more (suc (length (c.buffer ++ a))) (suc (length (c.buffer ++ (a ++ b)))) b
              (with_more a c) going (omega arith) (omega (arith, size)))
        ∙ ap (λ x. shown (receive parse (suc (length (c.buffer ++ (a ++ b)))) x)) same
        ∙ ap (shown) (sym (resume-going (a ++ b) c going))

    -- The way a stream of bytes is cut into chunks does not matter: two chunks one after the other
    -- leave the channel as their concatenation does, with the same requests settled the same way
    -- in the same order, the same requests waiting, the same bytes kept, and closed or not alike.
    pub push_chunks :
        (a b : List ℕ) (c : Channel R)
        → shown (push parse b (push parse a c)) ≡ shown (push parse (a ++ b) c)
    push_chunks a b c = elim (Bool-cases c.closed) [
      | inl closed ↦
          ap (λ x. shown (push parse b x)) (push-resume a c ∙ resume-closed a c closed)
          ∙ ap (shown) (push-resume b c ∙ resume-closed b c closed)
          ∙ ap (shown) (sym (push-resume (a ++ b) c ∙ resume-closed (a ++ b) c closed))
      | inr going ↦
          ap (λ x. shown (push parse b x)) (push-resume a c)
          ∙ ap (shown) (push-resume b (resume a c))
          ∙ push_second a b c going
          ∙ ap (shown) (sym (push-resume (a ++ b) c))
    ]
