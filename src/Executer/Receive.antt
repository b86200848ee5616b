-- ===== src/Executer/Receive.antt =====
-- The loop around `recv` fills a buffer with exactly the bytes that the peer sent, however the kernel cuts
-- them up.
use aws_nitro_enclaves_cli.Common.{
  ℕ, ◌+◌, ◌≤◌, ◌<◌, ◌≡◌, refl, sym, ap, ◌∙◌, true, List, [], ◌++◌, arith, length, take, drop,
  length-append, length-take, length-drop, take-append,
}
use aws_nitro_enclaves_cli.Executer.{Outcome, done, blocked}
use aws_nitro_enclaves_cli.Executer.Socket.{Answer, Socket, store, recv_loop}
use aws_nitro_enclaves_cli.Wire.{read_exact}
use aws_nitro_enclaves_cli.Failure.{ok}
use aws_nitro_enclaves_cli.Executer.Buffer.{without_error, Serves}
use aws_nitro_enclaves_cli.Executer.Rounds.{recv_calls-Serves, recv_calls-done, recv_calls-starved}

-- What is read into the front of a buffer.
pub store-front :
    (len : ℕ) (incoming buf : List ℕ)
    → len ≤ length incoming
    → store 0 (take len incoming) buf ≡ take len incoming ++ drop len buf
unfolding store
store-front len incoming buf enough =
    let e : 0 + length (take len incoming) ≡ len = omega (arith, length-take len incoming) in
    rw e refl

-- The state that is left when a buffer of `len` bytes has been read.
abbrev pub Reads : ℕ → List ℕ → Socket → List Answer → Type 0
Reads len buf s left = recv_loop buf len s ≡ (
  done (take len s.incoming ++ drop len buf),
  record s { incoming = drop len s.incoming; answers = left },
)

-- With enough answers the loop ends.
pub recv_loop-Serves :
    (count len : ℕ) (buf : List ℕ) (s : Socket)
    → len ≤ length buf
    → len ≤ length s.incoming
    → Serves (count + len) s.answers
    → (left : List Answer) × Serves count left × Reads len buf s left
unfolding recv_loop
recv_loop-Serves count len buf s fits enough h =
    let e : 0 + len ≡ len = omega arith in
    rw (e, store-front len s.incoming buf enough) at
      (recv_calls-Serves count s.answers 0 len buf s (omega arith) enough h)

pub recv_loop-done :
    (len : ℕ) (buf b : List ℕ) (s : Socket)
    → len ≤ length buf
    → (recv_loop buf len s).0 ≡ done b
    → (left : List Answer) × (len ≤ length s.incoming) × Reads len buf s left
unfolding recv_loop
recv_loop-done len buf b s fits h =
    let e : 0 + len ≡ len = omega arith in
    let (left, enough, reads) =
      rw e at (recv_calls-done s.answers 0 len buf s b (omega arith) (rw e h)) in
    (left, enough, rw (store-front len s.incoming buf enough) at reads)

pub front_of_buffer :
    (len : ℕ) (incoming buf : List ℕ)
    → len ≤ length incoming
    → take len (take len incoming ++ drop len buf) ≡ take len incoming
front_of_buffer len incoming buf enough =
    let l : length (take len incoming) ≡ len = omega (arith, length-take len incoming) in
    rw l at (take-append (take len incoming) (drop len buf))

pub length-buffer :
    (len : ℕ) (incoming buf : List ℕ)
    → len ≤ length incoming
    → len ≤ length buf
    → length (take len incoming ++ drop len buf) ≡ length buf
length-buffer len incoming buf enough fits = omega (
  arith,
  length-append (take len incoming) (drop len buf),
  length-take len incoming,
  length-drop len buf,
)

done-injective : {b c : List ℕ} → ◌≡◌ {A = Outcome (List ℕ)} (done b) (done c) → b ≡ c
done-injective h = cc

-- When the loop is done, on a buffer that is long enough, it has read what `read_exact` of the same number
-- of bytes reads from what the peer sends, and leaves the same bytes still to be read.
pub recv_loop-read_exact :
    (len : ℕ) (buf b : List ℕ) (s : Socket)
    → len ≤ length buf
    → (recv_loop buf len s).0 ≡ done b
    → read_exact len s.incoming ≡ (ok (take len b), (recv_loop buf len s).1.incoming)
unfolding read_exact
recv_loop-read_exact len buf b s fits h =
    let (left, enough, reads) = recv_loop-done len buf b s fits h in
    let b_is : b ≡ take len s.incoming ++ drop len buf =
      done-injective (sym h ∙ ap (λ (r : Outcome (List ℕ) × Socket). r.0) reads) in
    ground (arith, front_of_buffer len s.incoming buf enough, reads, b_is)

-- When the peer has closed the connection before it sent as many bytes as the loop reads, the loop does
-- not end, on a buffer that is long enough: whatever number of times the kernel has answered, without an
-- error, all its answers are used up and the loop waits for another one.
pub recv_loop-closed :
    (len : ℕ) (buf : List ℕ) (s : Socket)
    → len ≤ length buf
    → length s.incoming < len
    → without_error s.answers ≡ true
    → ((recv_loop buf len s).0 ≡ blocked) × ((recv_loop buf len s).1.answers ≡ [])
unfolding recv_loop
recv_loop-closed len buf s fits short h =
    let e : 0 + len ≡ len = omega arith in
    rw e at (recv_calls-starved s.answers 0 len buf s (omega arith) short h)
