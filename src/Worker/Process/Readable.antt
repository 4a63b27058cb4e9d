-- ===== src/Worker/Process/Readable.antt =====
-- The records that ProcessTask writes, for the queries of the message log.
use mathlib.Core.Bool.{false≢true}
use mux_mail.Prelude.{
  ◌≡◌, refl, sym, ap, ◌∙◌, String, Bool, true, false, ◌&&◌, ◌||◌, not, Option, none, some, ◌==◌,
  string_eq, arith, if◌then◌else◌,
}
use mux_mail.Prelude.Int.{pos}
use mux_mail.Domain.Constants.{
  AttemptStatus, FailureClass, ErrorCode, Provider, Transport, provider_is_valid,
  transport_is_valid,
}
use mux_mail.Domain.Types.{Attempt}
use mux_mail.Domain.Email.{codes}
use mux_mail.Lite.Queue.{QueueTask}
use mux_mail.Lite.Records.{is_valid_attempt_provider_metadata}
use mux_mail.Provider.{SendRequest, SendResult, channel_failure, temporary_failure}
use mux_mail.Worker.Config.{ProviderChannelRuntime}
use mux_mail.Worker.Attempts.{
  has_runtime_attempt_metadata, base_attempt, attempt_base, has_complete_attempt_metadata,
}
use mux_mail.Worker.Process.{send_through_provider}

-- The provider fields of a record, whatever its status and failure class.
pub record IsComplete (task : QueueTask) (a : Attempt) : Type 0 where
  pub same_id : a.message_id ≡ task.message.message_id
  pub same_no : a.attempt_no ≡ task.attempt_no
  pub metadata :
      (s : AttemptStatus) (f : FailureClass)
      → is_valid_attempt_provider_metadata a.provider a.provider_account_code
          a.provider_channel_code a.transport s f
        ≡ true

-- Those of an attempt that failed with this class.
pub record IsFailed (task : QueueTask) (a : Attempt) (f : FailureClass) : Type 0 where
  pub same_id : a.message_id ≡ task.message.message_id
  pub same_no : a.attempt_no ≡ task.attempt_no
  pub metadata :
      is_valid_attempt_provider_metadata a.provider a.provider_account_code a.provider_channel_code
        a.transport AttemptStatus.failed f
      ≡ true

complete_fields :
    (p : Provider) (account channel : String) (t : Transport) (s : AttemptStatus) (f : FailureClass)
    → provider_is_valid p ≡ true
    → (account == "") ≡ false
    → (channel == "") ≡ false
    → transport_is_valid t ≡ true
    → is_valid_attempt_provider_metadata p account channel t s f ≡ true
unfolding is_valid_attempt_provider_metadata
complete_fields p account channel t s f a b c d = rw (a, b, c, d) refl

bare_fields :
    (channel : String)
    → (channel == "") ≡ false
    → is_valid_attempt_provider_metadata
        (Provider.other "")
        ""
        channel
        (Transport.other "")
        AttemptStatus.failed
        FailureClass.channel
      ≡ true
unfolding is_valid_attempt_provider_metadata provider_is_valid transport_is_valid
bare_fields channel c = rw c refl

three : (a b c : Bool) → (a && not b && c) ≡ true → (a ≡ true) × (b ≡ false) × (c ≡ true)
three a b c h = ground arith

known_fields :
    (channel_code : String) (runtime : ProviderChannelRuntime) (resolved : Bool)
    → has_runtime_attempt_metadata channel_code runtime resolved ≡ true
    → (provider_is_valid runtime.account.provider ≡ true)
      × ((runtime.account.code == "") ≡ false)
      × (transport_is_valid runtime.channel.transport ≡ true)
unfolding has_runtime_attempt_metadata
known_fields channel_code runtime resolved h = ground arith

-- With metadata missing the provider is not asked.
pub not_sent :
    (task : QueueTask) (channel_code : String) (runtime : ProviderChannelRuntime) (resolved : Bool)
    → has_runtime_attempt_metadata channel_code runtime resolved ≡ false
    → send_through_provider task channel_code runtime resolved
      ≡ channel_failure ErrorCode.provider_unavailable (codes "provider channel unavailable")
unfolding send_through_provider
not_sent task channel_code runtime resolved h =
    by_provider runtime.provider (not resolved)
      (has_runtime_attempt_metadata channel_code runtime resolved) h
  where
    unavailable : SendResult
    unavailable =
        channel_failure ErrorCode.provider_unavailable (codes "provider channel unavailable")

    answered : Option SendResult → SendResult
    answered x = elim x [
      | none ↦ temporary_failure ErrorCode.provider_unavailable (codes "provider request failed")
      | some result ↦ result
    ]

    by_provider :
        (p : Option (SendRequest → Option SendResult)) (unresolved known : Bool)
        → known ≡ false
        → (elim p [
          | none ↦ unavailable
          | some send ↦
              if unresolved
                || not known
                || not runtime.channel.enabled
                || not runtime.account.enabled
              then unavailable
              else answered (
                  send (record {
                    message = task.message;
                    account = runtime.account;
                    channel = runtime.channel;
                    attempt = task.attempt_no;
                  }))
        ])
          ≡ unavailable
    by_provider none unresolved known k = refl
    by_provider (some send) unresolved true k = absurd (false≢true (sym k))
    by_provider (some send) true false k = refl
    by_provider (some send) false false k = refl

pub attempt_base-IsComplete :
    (task : QueueTask) (channel_code : String) (runtime : ProviderChannelRuntime) (resolved : Bool)
    → ((attempt_base task.message task.attempt_no channel_code runtime resolved).1
        && has_complete_attempt_metadata
            (attempt_base task.message task.attempt_no channel_code runtime resolved).0)
      ≡ true
    → IsComplete task (attempt_base task.message task.attempt_no channel_code runtime resolved).0
unfolding attempt_base has_complete_attempt_metadata provider_is_valid
attempt_base-IsComplete task channel_code runtime resolved h =
    by_tests (channel_code == "") (has_runtime_attempt_metadata channel_code runtime resolved) refl
      h
  where
    base : Bool → Bool → Attempt × Bool
    base blank known =
        if blank
        then (base_attempt "" "" (pos 0) (Provider.other "") "" "" (Transport.other ""), false)
        else if known
        then (
          base_attempt task.message.message_id task.message.app_code task.attempt_no
              runtime.account.provider runtime.account.code channel_code runtime.channel.transport,
          true,
        )
        else (
          base_attempt task.message.message_id task.message.app_code task.attempt_no
              (Provider.other "") "" channel_code (Transport.other ""),
          true,
        )

    by_tests :
        (blank known : Bool)
        → (channel_code == "") ≡ blank
        → ((base blank known).1 && has_complete_attempt_metadata (base blank known).0) ≡ true
        → IsComplete task (base blank known).0
    by_tests true known b h = absurd (false≢true h)
    by_tests false false b h = absurd (false≢true h)
    by_tests false true b h =
        let (valid, named, sends) =
          three (provider_is_valid runtime.account.provider) (runtime.account.code == "")
            (transport_is_valid runtime.channel.transport) h in
        record {
          same_id = refl;
          same_no = refl;
          metadata = λ s f.
              complete_fields runtime.account.provider runtime.account.code channel_code
                runtime.channel.transport s f valid named b sends;
        }

pub attempt_base-IsFailed :
    (task : QueueTask) (channel_code : String) (runtime : ProviderChannelRuntime) (resolved : Bool)
    (f : FailureClass)
    → (attempt_base task.message task.attempt_no channel_code runtime resolved).1 ≡ true
    → (has_runtime_attempt_metadata channel_code runtime resolved ≡ false
        → f ≡ FailureClass.channel)
    → IsFailed task (attempt_base task.message task.attempt_no channel_code runtime resolved).0 f
unfolding attempt_base
attempt_base-IsFailed task channel_code runtime resolved f h class =
    by_tests (channel_code == "") (has_runtime_attempt_metadata channel_code runtime resolved) refl
      refl h
  where
    base : Bool → Bool → Attempt × Bool
    base blank known =
        if blank
        then (base_attempt "" "" (pos 0) (Provider.other "") "" "" (Transport.other ""), false)
        else if known
        then (
          base_attempt task.message.message_id task.message.app_code task.attempt_no
              runtime.account.provider runtime.account.code channel_code runtime.channel.transport,
          true,
        )
        else (
          base_attempt task.message.message_id task.message.app_code task.attempt_no
              (Provider.other "") "" channel_code (Transport.other ""),
          true,
        )

    by_tests :
        (blank known : Bool)
        → (channel_code == "") ≡ blank
        → has_runtime_attempt_metadata channel_code runtime resolved ≡ known
        → (base blank known).1 ≡ true
        → IsFailed task (base blank known).0 f
    by_tests true known b k h = absurd (false≢true h)
    by_tests false true b k h =
        let (valid, named, sends) = known_fields channel_code runtime resolved k in
        record {
          same_id = refl;
          same_no = refl;
          metadata =
              complete_fields runtime.account.provider runtime.account.code channel_code
                runtime.channel.transport _ f valid named b sends;
        }
    by_tests false false b k h = record {
      same_id = refl;
      same_no = refl;
      metadata =
          ap
            (λ f.
              is_valid_attempt_provider_metadata (Provider.other "") "" channel_code
                (Transport.other "") AttemptStatus.failed f)
            (class k)
          ∙ bare_fields channel_code b;
    }
