-- ===== src/Comm/Waits.antt =====
-- When the wait of a broadcast for replies comes to its end, and when it does not.
use aws_nitro_enclaves_cli.Common.{
  ℕ, zero, suc, ◌≤◌, ◌<◌, ◌≡◌, refl, ◌≢◌, Bool, true, false, Option, none, some, List, [], ◌∷◌,
  ◌++◌, arith, length, get_elem?, All,
}
use aws_nitro_enclaves_cli.Connection.Stream.{Stream}
use aws_nitro_enclaves_cli.Comm.Broadcast.{
  EpollAnswer, interrupted, failed, timed_out, ready, waiting, handle_reply, blocks, await_replies,
}

-- The answers that are no interruption.
abbrev pub settled : List EpollAnswer → ℕ
settled [] = 0
settled (interrupted ∷ answers) = settled answers
settled (_ ∷ answers) = suc (settled answers)

-- A process that can be read has sent the eight bytes of a reply, or closes its end.
abbrev pub Replies : List Stream → EpollAnswer → Type 0
Replies conns (ready place false removed) =
    (conn : Stream) → get_elem? conns place ≡ some conn → 8 ≤ length conn.incoming
Replies conns _ = Unit

blocks-Replies :
    (conns : List Stream) (place : ℕ) (closes removed : Bool)
    → Replies conns (ready place closes removed)
    → blocks (get_elem? conns place) closes ≡ false
blocks-Replies conns place true removed replies = one (get_elem? conns place)
  where
    one : (found : Option Stream) → blocks found true ≡ false
    one none = refl
    one (some conn) = refl
blocks-Replies conns place false removed replies = one (get_elem? conns place) replies
  where
    one :
        (found : Option Stream)
        → ((conn : Stream) → found ≡ some conn → 8 ≤ length conn.incoming)
        → blocks found false ≡ false
    one none enough = refl
    one (some conn) enough = ground (arith, enough conn refl)

-- The wait for replies is over after as many answers of `epoll_wait` as replies are expected, besides
-- interruptions, if no process that can be read stops within the eight bytes of its reply with the
-- connection open. A process that sends nothing at all does not hold it up.
pub await_replies-ne-waiting :
    (conns : List Stream) (expected : ℕ) (answers : List EpollAnswer) (replies : List Stream)
    → All (Replies conns) answers
    → expected ≤ settled answers
    → await_replies conns expected answers replies ≢ waiting
unfolding await_replies
await_replies-ne-waiting conns zero answers replies all h = λ e. cc
await_replies-ne-waiting conns (suc expected) [] replies all h = absurd (omega arith)
await_replies-ne-waiting conns (suc expected) (interrupted ∷ answers) replies all h =
    await_replies-ne-waiting conns (suc expected) answers replies all.1 h
await_replies-ne-waiting conns (suc expected) (failed ∷ answers) replies all h = λ e. cc
await_replies-ne-waiting conns (suc expected) (timed_out ∷ answers) replies all h =
    await_replies-ne-waiting conns expected answers replies all.1 (omega arith)
await_replies-ne-waiting conns (suc expected) (ready place closes removed ∷ answers) replies all h =
    let more = handle_reply (get_elem? conns place) replies in
    let later = await_replies-ne-waiting conns expected answers more all.1 (omega arith) in
    ground (arith, blocks-Replies conns place closes removed all.0)

-- An answer after which the wait goes on or is held up: no failure, and no connection that cannot be taken
-- off the set.
abbrev pub Passes : EpollAnswer → Type 0
Passes interrupted = Unit
Passes failed = ⊥
Passes timed_out = Unit
Passes (ready place closes removed) = removed ≡ true

-- As long as replies are expected and `epoll_wait` does not fail, a process of the list that has sent less
-- than the eight bytes of its reply and keeps the connection open holds the wait up for good, whatever
-- `epoll_wait` would answer after it: the time-out of the wait is not for the read of a reply.
await_replies-partial :
    (conns : List Stream) (expected : ℕ) (before after : List EpollAnswer) (place : ℕ)
    (removed : Bool) (conn : Stream) (replies : List Stream)
    → All Passes before
    → settled before < expected
    → get_elem? conns place ≡ some conn
    → length conn.incoming < 8
    → await_replies conns expected (before ++ (ready place false removed ∷ after)) replies ≡ waiting
unfolding await_replies
await_replies-partial conns zero before after place removed conn replies passes h at short =
    absurd (omega arith)
await_replies-partial conns (suc expected) [] after place removed conn replies passes h at short =
    ground (arith, at)
await_replies-partial conns (suc expected) (interrupted ∷ before) after place removed conn replies
      passes h at short =
    await_replies-partial conns (suc expected) before after place removed conn replies passes.1 h at
      short
await_replies-partial conns (suc expected) (failed ∷ before) after place removed conn replies passes
      h at short =
    absurd passes.0
await_replies-partial conns (suc expected) (timed_out ∷ before) after place removed conn replies
      passes h at short =
    await_replies-partial conns expected before after place removed conn replies passes.1
      (omega arith) at short
await_replies-partial conns (suc expected) (ready other closes gone ∷ before) after place removed
      conn replies passes h at short =
    let more = handle_reply (get_elem? conns other) replies in
    let later =
      await_replies-partial conns expected before after place removed conn more passes.1
        (omega arith) at short in
    ground (arith, passes.0)
