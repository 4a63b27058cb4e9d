-- ===== src/Worker/Config.antt =====
-- The worker's dependencies, its configuration and its resolver, of internal/worker/worker.go.
use mux_mail.Prelude.{
  String, Bool, true, false, Option, none, some, List, [], ◌∷◌, string_eq, if◌then◌else◌,
}
use mux_mail.Prelude.Int.{ℤ, pos, leb_ℤ}
use mux_mail.Prelude.Assoc.{Assoc, lookup, insert}
use mux_mail.Domain.Constants.{Provider, Transport}
use mux_mail.Domain.Types.{Message, Attempt, ProviderAccount, ProviderChannel}
use mux_mail.Provider.{SendRequest, SendResult}

-- `provider` is the Send of the adapter, with `none` for its error; a nil adapter is `none`.
pub record ProviderChannelRuntime : Type 0 where
  pub account : ProviderAccount
  pub channel : ProviderChannel
  pub provider : Option (SendRequest → Option SendResult)

-- ProviderChannelRuntime{}
abbrev pub no_runtime : ProviderChannelRuntime
no_runtime = record {
  account = record {
    code = "";
    provider = Provider.other "";
    enabled = false;
    credential_refs = [];
  };
  channel = record {
    code = "";
    account = "";
    transport = Transport.other "";
    enabled = false;
    sender_domain = "";
    from_name = "";
    from = "";
    smtp = none;
  };
  provider = none;
}

-- The map of StaticProviderResolver.
abbrev pub StaticProviderResolver : Type 0
StaticProviderResolver = Assoc String ProviderChannelRuntime

unfoldable pub add_channels :
    List ProviderChannelRuntime → StaticProviderResolver → StaticProviderResolver
add_channels [] resolver = resolver
add_channels (runtime ∷ rest) resolver =
    add_channels rest (insert runtime.channel.code runtime resolver)

unfoldable pub new_static_provider_resolver : List ProviderChannelRuntime → StaticProviderResolver
unfolding add_channels
new_static_provider_resolver channels = add_channels channels []

-- Resolve; a nil resolver is `none`.
unfoldable pub resolve : Option StaticProviderResolver → String → ProviderChannelRuntime × Bool
resolve none channel_code = (no_runtime, false)
resolve (some channels) channel_code = elim (lookup channel_code channels) [
  | none ↦ (no_runtime, false)
  | some runtime ↦ (runtime, true)
]

-- Each call of the message log says with `some` that it failed.
pub record MessageLog : Type 0 where
  pub append_message : Message → Option String
  pub append_attempt : Attempt → Option String

-- Config. Of the queue only its presence is tested here. The stats sink, the clock and the error
-- handler have defaults, and are not part of the model's worker: what is passed to them is in the
-- events, and the clock's readings are arguments.
pub record WorkerConfig : Type 0 where
  pub has_queue : Bool
  pub message_log : Option MessageLog
  pub resolver : Option (String → ProviderChannelRuntime × Bool)
  pub max_attempts_per_message : ℤ
  pub retry_backoff_seconds : List ℤ
  pub provider_timeout : ℤ
  pub worker_concurrency : ℤ

pub record Worker : Type 0 where
  pub message_log : MessageLog
  pub resolver : String → ProviderChannelRuntime × Bool
  pub max_attempts : ℤ
  pub retry_backoff : List ℤ
  pub provider_timeout : ℤ
  pub concurrency : ℤ

pub data NewWorker : Type 0 where
  worker : Worker → NewWorker
  queue_required message_log_required resolver_required : NewWorker
  max_attempts_not_positive provider_timeout_not_positive : NewWorker

abbrev not_positive : ℤ → Bool
not_positive n = leb_ℤ n (pos 0)

build_worker : WorkerConfig → MessageLog → (String → ProviderChannelRuntime × Bool) → NewWorker
build_worker config message_log resolver =
    if not_positive config.max_attempts_per_message
    then max_attempts_not_positive
    else if not_positive config.provider_timeout
    then provider_timeout_not_positive
    else worker (record {
      message_log = message_log;
      resolver = resolver;
      max_attempts = config.max_attempts_per_message;
      retry_backoff = config.retry_backoff_seconds;
      provider_timeout = config.provider_timeout;
      concurrency =
          if not_positive config.worker_concurrency then pos 1 else config.worker_concurrency;
    })

-- New
unfoldable pub new_worker : WorkerConfig → NewWorker
unfolding build_worker
new_worker config =
    if config.has_queue
    then elim config.message_log [
      | none ↦ message_log_required
      | some message_log ↦ elim config.resolver [
        | none ↦ resolver_required
        | some resolver ↦ build_worker config message_log resolver
      ]
    ]
    else queue_required
