-- ===== src/Channel/Script.antt =====
-- A channel whose other end is a script: what is sent is logged, and what is received comes from a
-- list of chunks, each call taking from the first one at most. Concrete worlds for the examples.
use libiphone_debian.Common.{
  ℕ, ◌≤◌, ◌≡◌, refl, List, [], ◌∷◌, ◌++◌, length, take, drop, length-take, arith,
}
use libiphone_debian.Channel.{Channel, IsReliable}

pub record Script : Type 0 where
  pub incoming : List (List ℕ)
  pub outgoing : List ℕ

-- What is left of a chunk goes back to the script.
abbrev pub put_back : List ℕ → List (List ℕ) → List (List ℕ)
put_back [] chunks = chunks
put_back (b ∷ bs) chunks = (b ∷ bs) ∷ chunks

abbrev pub next_chunk : ℕ → List (List ℕ) → List ℕ → List ℕ × Script
next_chunk n [] out = ([], record { incoming = []; outgoing = out })
next_chunk n (c ∷ cs) out = (take n c, record { incoming = put_back (drop n c) cs; outgoing = out })

pub next_chunk-le :
    (n : ℕ) (chunks : List (List ℕ)) (out : List ℕ) → length (next_chunk n chunks out).0 ≤ n
next_chunk-le n [] out = omega arith
next_chunk-le n (c ∷ cs) out = omega (arith, length-take n c)

abbrev pub script_channel : Channel Script
script_channel = record {
  send = λ d w. (length d, record w { outgoing = w.outgoing ++ d });
  receive = λ n w. next_chunk n w.incoming w.outgoing;
  receive_le = λ n w. next_chunk-le n w.incoming w.outgoing;
  receive_timeout = λ n timeout w. next_chunk n w.incoming w.outgoing;
  receive_timeout_le = λ n timeout w. next_chunk-le n w.incoming w.outgoing;
}

pub next_chunk_keeps :
    (n : ℕ) (chunks : List (List ℕ)) (out : List ℕ) → (next_chunk n chunks out).1.outgoing ≡ out
next_chunk_keeps n [] out = refl
next_chunk_keeps n (c ∷ cs) out = refl

pub script-IsReliable : IsReliable script_channel (λ w. w.outgoing)
script-IsReliable = record {
  sends_all = λ d w. refl;
  send_logs = λ d w. refl;
  receive_keeps = λ n w. next_chunk_keeps n w.incoming w.outgoing;
}
