-- ===== src/Crawler/Successes.antt =====
-- How often the downloader counts one metadata.
use dht_crawler.Base.{ℕ, suc, ◌+◌, ◌≡◌, refl, ◌∙◌, Bytes, Bool, arith}
use dht_crawler.Libtorrent.{Libtorrent}
use dht_crawler.RequestQueue.{QueueEntry}
use dht_crawler.Downloader.{
  Downloader, account, process_queue, queue_rounds, handle_metadata_received, log_success,
}
use dht_crawler.Downloader.Loop.{Outcome, refused, started, process_round_cases, process_loop_inv}
use dht_crawler.Crawler.{Database, Crawler, lend, give_back}
use dht_crawler.Crawler.Metadata.{notify}

module _ {lt : Libtorrent} where
  account-success_count :
      (now n : ℕ) (x : QueueEntry) (d : Downloader lt) (o : Downloader lt × Bool)
      → Outcome x d o
      → (account now x n o).0.success_count ≡ d.success_count
  unfolding account
  account-success_count now n x d _ (started s r) = refl
  account-success_count now n x d _ (refused s h) = ground arith

  process_queue-success_count :
      (now : ℕ) (d : Downloader lt) → (process_queue now d).success_count ≡ d.success_count
  unfolding process_queue
  process_queue-success_count now d =
      process_loop_inv (λ t. t.0.success_count ≡ d.success_count) now
        (λ s on h.
          process_round_cases (λ t. t.0.success_count ≡ d.success_count) now s on
            λ x q o took out. account-success_count now s.1 x (record s.0 { queue = q }) o out ∙ h)
        (suc (queue_rounds d.queue.queue)) (d, 0) refl

  received-success_count :
      (now : ℕ) (h : Bytes) (d : Downloader lt)
      → (handle_metadata_received now h d).success_count ≡ d.success_count + 1
  unfolding handle_metadata_received
  received-success_count now h d = process_queue-success_count now _

module _ {lt : Libtorrent} {db : Database} where
  -- The arrival of one metadata counts as two successes of the downloader, by
  -- handle_metadata_received and by log_success behind it.
  pub notify-success_count :
      (now : ℕ) (h : Bytes) (c : Crawler lt db)
      → (notify now h c).downloader.success_count ≡ c.downloader.success_count + 2
  unfolding notify give_back lend log_success
  notify-success_count now h c = omega (arith, received-success_count now h (lend c))
