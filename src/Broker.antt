-- ===== src/Broker.antt =====
-- apps/pkg/mq/rabbitmq.go and the consumers' start in apps/logic/service/upload_consumer.go and
-- apps/gateway/ws/mq_consumer.go: what the services ask of the broker, in order, up to the first call
-- that fails; and the channels they publish on in turn.
use go_im_system.Prelude.{
  ◌≡◌, ◌++◌, refl, ℕ, zero, suc, ◌+◌, ◌%◌, ◌^◌, Bool, true, false, List, [], ◌∷◌, Option, none,
  some, if◌then◌else◌,
}
use go_im_system.Text.{Text, codes}

abbrev pub down_exchange_name : Text
down_exchange_name = codes "gateway.exchange"

abbrev pub upload_exchange_name : Text
upload_exchange_name = codes "message.upload"

abbrev pub dead_exchange_name : Text
dead_exchange_name = codes "dead.letter.exchange"

abbrev pub publish_pool_size : ℕ
publish_pool_size = 5

-- Exchanges are direct and durable, queues durable. A queue may name an exchange and a key for its dead
-- letters.
pub data Command : Type 0 where
  dial : Text → Command
  open_channel : Command
  exchange_declare : Text → Command
  queue_declare : Text → Option (Text × Text) → Command
  queue_bind : Text → Text → Text → Command  -- queue, key, exchange
  qos : ℕ → Command
  consume : Text → Command

-- The commands that were issued, the failing one included, and whether none failed.
unfoldable pub issue : (Command → Bool) → List Command → List Command × Bool
issue fails [] = ([], true)
issue fails (c ∷ cs) =
    let (issued, done) = issue fails cs in if fails c then (c ∷ [], false) else (c ∷ issued, done)

abbrev pub channels : ℕ → List Command
channels zero = []
channels (suc n) = open_channel ∷ channels n

abbrev pub dead_letter_queue : Text
dead_letter_queue = codes "dead.letter.queue"

abbrev pub dead_letter_key : Text
dead_letter_key = codes "dead.letter"

unfoldable pub init_rabbit_mq : Text → List Command
init_rabbit_mq url =
    dial url
    ∷ (open_channel
        ∷ (exchange_declare upload_exchange_name
            ∷ (exchange_declare down_exchange_name
                ∷ (exchange_declare dead_exchange_name
                    ∷ (queue_declare dead_letter_queue none
                        ∷ (queue_bind dead_letter_queue dead_letter_key dead_exchange_name
                            ∷ channels publish_pool_size))))))

unfoldable pub consume_upload_queue : Text → Text → List Command
consume_upload_queue queue key =
    queue_declare queue (some (dead_exchange_name, dead_letter_key))
    ∷ (queue_bind queue key upload_exchange_name ∷ (qos 50 ∷ (consume queue ∷ [])))

unfoldable pub consume_down_queue : Text → Text → List Command
consume_down_queue queue key =
    queue_declare queue none
    ∷ (queue_bind queue key down_exchange_name ∷ (qos 50 ∷ (consume queue ∷ [])))

-- The counter after it and the channel's index.
unfoldable pub get_publish_ch : ℕ → ℕ × ℕ
get_publish_ch index = let next = (index + 1) % 2 ^ 64 in (next, next % publish_pool_size)

-- A persistent publication, not mandatory: its channel, exchange, key and body.
pub record Publication (B : Type 0) : Type 0 where
  pub channel : ℕ
  pub exchange : Text
  pub key : Text
  pub body : B

module _ {B : Type 0} where
  unfoldable pub publish_on : Text → Text → B → ℕ → ℕ × Publication B
  unfolding get_publish_ch
  publish_on exchange key body index =
      let (next, channel) = get_publish_ch index in
      (next, record { channel = channel; exchange = exchange; key = key; body = body })

  unfoldable pub publish_upload : Text → B → ℕ → ℕ × Publication B
  unfolding publish_on
  publish_upload key body index = publish_on upload_exchange_name key body index

  unfoldable pub publish_down : Text → B → ℕ → ℕ × Publication B
  unfolding publish_on
  publish_down key body index = publish_on down_exchange_name key body index

-- `StartUploadConsumer` and `StartMQConsumer`: the commands, and the workers on the deliveries.
unfoldable pub start_upload_consumer : List Command × ℕ
unfolding consume_upload_queue
start_upload_consumer = (consume_upload_queue (codes "logic.upload.queue") (codes "upload.all"), 50)

unfoldable pub start_mq_consumer : Text → List Command × ℕ
unfolding consume_down_queue
start_mq_consumer gateway_addr =
    (consume_down_queue (codes "gateway.queue." ++ gateway_addr) gateway_addr, 8)

-- The first call that fails stops the start.
broken_start :
    issue
      (λ c. elim c [ exchange_declare n ↦ true | _ ↦ false ])
      (init_rabbit_mq (codes "amqp://mq"))
    ≡ (
      dial (codes "amqp://mq") ∷ (open_channel ∷ (exchange_declare upload_exchange_name ∷ [])),
      false,
    )
unfolding issue init_rabbit_mq
broken_start = refl
