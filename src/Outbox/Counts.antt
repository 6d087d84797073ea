-- ===== src/Outbox/Counts.antt =====
-- src/flagship_lab/outbox.py, `publish_batch`: the numbers that a batch reports.
use flagship_lab.Tx.Bind.{and_then-eq-ok}
use flagship_lab.Schema.{OutboxEvent, Store}
use flagship_lab.Core.{connect}
use flagship_lab.Outbox.{
  OutboxPublisher, waiting, publish_batch, publish_rows, BatchResult, publish_row, tally,
}
use flagship_lab.Tx.{Env, World, ok}
use flagship_lab.Prelude.{ℕ, List, ◌≡◌, length, Bool, take, ◌≤◌, arith, suc, ◌+◌, ◌∷◌, [], zero}

length-take {ℓ} : {A : Type ℓ} (n : ℕ) (xs : List A) → length (take n xs) ≤ n
length-take zero xs = omega arith
length-take (suc n) [] = omega arith
length-take (suc n) (x ∷ xs) = omega (arith, length-take n xs)

module _ (env : Env) (p : OutboxPublisher) where
  publish_rows_counts :
      (rows : List OutboxEvent) (r r' : BatchResult) (w : World)
      → (publish_rows env p rows r w).0 ≡ ok r'
      → (r'.selected ≡ r.selected)
        × (r'.published + r'.failed ≡ r.published + r.failed + length rows)
  unfolding publish_rows
  publish_rows_counts [] r r' w h = ground arith
  publish_rows_counts (row ∷ rows) r r' w h =
      let (published, _, _, rest) = and_then-eq-ok (publish_row env p row w) _ r' h in
      ground
        (arith, publish_rows_counts rows (tally r published) r' (publish_row env p row w).1 rest)

  length-waiting :
      (locked : ℕ → Bool) (limit : ℕ) (s : Store) → length (waiting env locked p limit s) ≤ limit
  unfolding waiting
  length-waiting locked limit s = length-take limit _

  -- A batch that returns has handled every row that it selected, either way, and selects at most
  -- `limit` rows, a number from 1 to 1000.
  pub publish_batch_counts :
      (locked : ℕ → Bool) (limit : ℕ) (w : World) (r : BatchResult)
      → (publish_batch env locked p limit w).0 ≡ ok r
      → (r.published + r.failed ≡ r.selected)
        × (r.selected ≡ length (waiting env locked p limit w.store))
        × (r.selected ≤ limit)
        × (1 ≤ limit)
        × (limit ≤ 1000)
  unfolding publish_batch connect
  publish_batch_counts locked limit w r h = ground (
    arith,
    publish_rows_counts (waiting env locked p limit w.store)
        (record {
          selected = length (waiting env locked p limit w.store);
          published = 0;
          failed = 0;
        })
        r w,
    length-waiting locked limit w.store,
  )
