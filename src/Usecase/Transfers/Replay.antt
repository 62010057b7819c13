-- ===== src/Usecase/Transfers/Replay.antt =====
-- usecase/transactions.go, idempotency keys over a history of transfers.
use payment_processing.Prelude.{
  ◌≡◌, refl, sym, subst, ◌∙◌, ap, inl, inr, List, [], ◌∷◌, Bytes, ok, err, find-exists, find-last,
  find-append,
}
use payment_processing.Domain.{Outcome, Uuid, Time}
use payment_processing.Storage.Tables.{Db}
use payment_processing.Storage.Session.{World}
use payment_processing.Storage.Idempotency.{has_key, fresh_row, complete_row}
use payment_processing.Usecase.Transfers.{TransferCommand, Platform}
use payment_processing.Usecase.Transfers.Recorded.{Transferred, Answers, own_row}
use payment_processing.Usecase.Transfers.Outcomes.{Done}
use payment_processing.Usecase.Transfers.Loop.{Accounted}
use payment_processing.Usecase.Transfers.History.{
  Call, IsConsistent, call, command_of, serve, accounted, call-IsConsistent, serve-IsConsistent,
}

module _ {S : Type 0} (p : Platform S) where
  -- A finished row stays the answer to its request.
  Answers-kept :
      (now : Time) (c d : TransferCommand) (id : Uuid) (r : Outcome Bytes) (db db' : Db)
      → Accounted p now d r db db'
      → Answers c id db
      → Answers c id db'
  Answers-kept now c d id (ok result) db db' (_, _, inl t) a = record {
    row = a.row;
    found =
        rw t.keyed
          (find-append (has_key c.sender_id c.key) db.transfer_idempotency _ a.row a.found);
    same_request = a.same_request;
    finished = a.finished;
    result = a.result;
  }
  Answers-kept now c d id (ok result) db db' (_, _, inr (_, same)) a =
      subst (Answers c id) (sym same) a
  Answers-kept now c d id (err e) db db' same a = subst (Answers c id) (sym same) a

  Answers-serve :
      (c : TransferCommand) (id : Uuid) (cs : List Call) (w : World S)
      → IsConsistent w.db
      → Answers c id w.db
      → Answers c id (serve p cs w).db
  unfolding serve
  Answers-serve c id [] w h a = a
  Answers-serve c id (d ∷ cs) w h a =
      Answers-serve c id cs (call p d w).1 (call-IsConsistent p d w h) (
        Answers-kept w.clock c (command_of p d) id (call p d w).0 w.db (call p d w).1.db
          (accounted p d w h) a)

  Transferred-Answers :
      (now : Time) (c : TransferCommand) (id : Uuid) (db db' : Db)
      → Transferred now c id db db'
      → Answers c id db'
  Transferred-Answers now c id db db' t = record {
    row = complete_row now id (fresh_row now c.sender_id c.key c.request_fingerprint);
    found =
        rw t.keyed (
          find-last (has_key c.sender_id c.key) db.transfer_idempotency _ t.new_key
            (own_row now c));
    same_request = refl;
    finished = refl;
    result = refl;
  }

  Done-Answers :
      (now : Time) (c : TransferCommand) (result : Bytes) (db db' : Db)
      → Done p now c result db db'
      → (id : Uuid) × (result ≡ p.uuid_string id) × Answers c id db'
  Done-Answers now c result db db' (id, e, inl t) = (id, e, Transferred-Answers now c id db db' t)
  Done-Answers now c result db db' (id, e, inr (a, same)) =
      (id, e, subst (Answers c id) (sym same) a)

  -- A request that has an answer gets that answer, and changes nothing.
  answered_once :
      (now : Time) (c : TransferCommand) (id : Uuid) (result : Bytes) (db db' : Db)
      → Answers c id db
      → Done p now c result db db'
      → (result ≡ p.uuid_string id) × (db' ≡ db)
  answered_once now c id result db db' a (j, e, inl t) = absurd (
      cc (
        t.new_key,
        (find-exists (has_key c.sender_id c.key) db.transfer_idempotency a.row a.found).0,
      ))
  answered_once now c id result db db' a (j, e, inr (b, same)) =
      let one_id : j ≡ id = cc (a.found, b.found, a.result, b.result) in
      (e ∙ ap p.uuid_string one_id, same)

  -- Over consistent tables, after a transfer has succeeded and any other transfers came in
  -- between, the same call can only succeed with the id of the first, and then commits nothing.
  pub transfer_once :
      (c : Call) (between : List Call) (w : World S) (first second : Bytes)
      → IsConsistent w.db
      → (call p c w).0 ≡ ok first
      → let later = serve p between (call p c w).1 in
        (call p c later).0 ≡ ok second → (second ≡ first) × ((call p c later).1.db ≡ later.db)
  transfer_once c between w first second h done again =
      let w1 = (call p c w).1 in
      let later = serve p between w1 in
      let (id, is_first, answer) =
        Done-Answers w.clock (command_of p c) first w.db w1.db (
          subst (λ r. Accounted p w.clock (command_of p c) r w.db w1.db) done
            (accounted p c w h)) in
      let consistent1 = call-IsConsistent p c w h in
      let consistent = (serve-IsConsistent p between w1 consistent1).0 in
      let (is_second, same) =
        answered_once later.clock (command_of p c) id second later.db (call p c later).1.db
          (Answers-serve (command_of p c) id between w1 consistent1 answer)
          (subst (λ r. Accounted p later.clock (command_of p c) r later.db (call p c later).1.db)
            again (accounted p c later consistent)) in
      (is_second ∙ sym is_first, same)
