-- ===== src/Repository/Newsletter.antt =====
-- internal/repository/newsletter.go: subscriptions.
use magento2_customer_graphq.Base.{
  ℕ, ◌+◌, Bool, false, Option, none, some, List, [], ◌∷◌, ltb, ◌==◌, if◌then◌else◌,
}
use magento2_customer_graphq.Base.Text.{Text}
use magento2_customer_graphq.Errors.{newsletter_check, subscribe, unsubscribe}
use magento2_customer_graphq.World.{SubscriberRow}
use magento2_customer_graphq.World.Monad.{Action, ◌>>=◌, pure, within, query, exec}
use magento2_customer_graphq.Env.{Env}
use magento2_customer_graphq.Repository.Sql.{select, update_where}

abbrev pub of_customer : ℕ → SubscriberRow → Bool
of_customer id s = s.customer_id == id

-- `ORDER BY subscriber_id DESC LIMIT 1`
abbrev newer : SubscriberRow → Option SubscriberRow → SubscriberRow
newer s none = s
newer s (some t) = if ltb t.subscriber_id s.subscriber_id then s else t

unfoldable pub newest : List SubscriberRow → Option SubscriberRow
newest [] = none
newest (s ∷ rest) = some (newer s (newest rest))

abbrev subscribed_status : Option SubscriberRow → Bool
subscribed_status none = false
subscribed_status (some s) = s.subscriber_status == 1

unfoldable pub is_subscribed : ℕ → Action Bool
unfolding newest
is_subscribed id = do
  latest ← within newsletter_check (query (λ w. newest (select (of_customer id) w.subscribers)))
  pure (subscribed_status latest)

-- `INSERT ... ON DUPLICATE KEY UPDATE subscriber_status = 1, change_status_at = NOW()`, with the
-- duplicate key given.
unfoldable pub upsert :
    (SubscriberRow → SubscriberRow → Bool) → SubscriberRow → List SubscriberRow → List SubscriberRow
upsert same s [] = s ∷ []
upsert same s (t ∷ rest) =
    if same s t
    then record t { subscriber_status = 1; change_status_at = s.change_status_at } ∷ rest
    else t ∷ upsert same s rest

module _ (env : Env) where
  abbrev new_subscriber : ℕ → ℕ → ℕ → Text → SubscriberRow
  new_subscriber key customer store email = record {
    subscriber_id = key;
    store_id = store;
    customer_id = customer;
    subscriber_email = email;
    subscriber_status = 1;
    change_status_at = env.format_time env.now;
  }

  unfoldable pub subscribe_customer : ℕ → ℕ → Text → Action (Unit {0})
  unfolding upsert
  subscribe_customer customer store email = within subscribe (
      exec (λ w. record w {
        subscribers =
            upsert env.same_subscriber (new_subscriber w.next_subscriber customer store email)
              w.subscribers;
        next_subscriber = w.next_subscriber + 1;
      }))

  abbrev unsubscribed : SubscriberRow → SubscriberRow
  unsubscribed s = record s { subscriber_status = 3; change_status_at = env.format_time env.now }

  unfoldable pub unsubscribe_customer : ℕ → Action (Unit {0})
  unsubscribe_customer id = within unsubscribe (
      exec
        (λ w. record w { subscribers = update_where (of_customer id) unsubscribed w.subscribers }))
