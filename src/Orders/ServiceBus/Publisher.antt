-- ===== src/Orders/ServiceBus/Publisher.antt =====
-- apps/orders/servicebus.py: `ServiceBusEventPublisher`, from `__aenter__` to `__aexit__`. Azure's
-- SDK answers each call as it likes, given the calls so far.
pub mod Closes
use swarmscope.Base.{
  ℕ, ◌*◌, ◌≡◌, Bool, true, false, Option, none, some, List, [], ◌∷◌, Text, Result, ok, err, is_none,
}
use swarmscope.Orders.Messaging.{OutboundEvent}
use swarmscope.Orders.ServiceBus.{Printer, ServiceBusMessage, to_service_bus_message}

abbrev pub sdk_retry_total : ℕ
sdk_retry_total = 1

abbrev pub sdk_retry_backoff_max : ℕ
sdk_retry_backoff_max = 2 * 1000000

-- the calls of the SDK, where objects are numbered
pub data SdkCall : Type 0 where
  default_azure_credential : SdkCall
  service_bus_client : Text → ℕ → ℕ → ℕ → SdkCall
  get_topic_sender : ℕ → Text → SdkCall
  send_messages : ℕ → ServiceBusMessage → SdkCall
  close_sender close_client close_credential : ℕ → SdkCall

pub data PublisherError : Type 0 where
  not_open sdk_error : PublisherError

pub record ServiceBusEventPublisher : Type 0 where
  pub fully_qualified_namespace : Text
  pub topic_name : Text
  pub credential : Option ℕ
  pub owns_credential : Bool
  pub client : Option ℕ
  pub sender : Option ℕ

-- `__init__`
abbrev pub new_publisher : Text → Text → Option ℕ → ServiceBusEventPublisher
new_publisher namespace topic credential = record {
  fully_qualified_namespace = namespace;
  topic_name = topic;
  credential = credential;
  owns_credential = is_none credential;
  client = none;
  sender = none;
}

-- the object, and the calls that the SDK has seen, the last one first
pub record Session : Type 0 where
  pub publisher : ServiceBusEventPublisher
  pub calls : List SdkCall

-- what a method returns or raises, with what it leaves
abbrev pub Method : Type 0 → Type 0
Method A = Result PublisherError A × Session

-- what follows a method that returned
abbrev pub and_then : {A B : Type 0} → (A → Session → Method B) → Method A → Method B
and_then f (ok a, s) = f a s
and_then f (err e, s) = (err e, s)

abbrev pub set_credential : ℕ → Session → Session
set_credential c s = record s { publisher = record s.publisher { credential = some c } }

abbrev pub set_client : ℕ → Session → Session
set_client c s = record s { publisher = record s.publisher { client = some c } }

abbrev pub set_sender : ℕ → Session → Session
set_sender c s = record s { publisher = record s.publisher { sender = some c } }

abbrev pub answered : Session → Option ℕ → Method ℕ
answered s none = (err sdk_error, s)
answered s (some n) = (ok n, s)

-- The SDK: none where a call raises, and a new object's number where it makes one.
module _ (sdk : List SdkCall → SdkCall → Option ℕ) where
  abbrev pub calling : SdkCall → Session → Method ℕ
  calling c s = answered (record s { calls = c ∷ s.calls }) (sdk s.calls c)

  -- `self._credential or DefaultAzureCredential()`
  abbrev pub get_credential : Option ℕ → Session → Method ℕ
  get_credential (some c) s = (ok c, s)
  get_credential none s = calling default_azure_credential s

  abbrev pub open_sender : ℕ → Session → Method (Unit {0})
  open_sender client s =
      and_then (λ sender s'. (ok tt, set_sender sender s'))
        (calling (get_topic_sender client s.publisher.topic_name) s)

  abbrev pub open_client : ℕ → Session → Method (Unit {0})
  open_client credential s =
      and_then (λ client s'. open_sender client (set_client client s'))
        (calling
          (service_bus_client s.publisher.fully_qualified_namespace credential sdk_retry_total
            sdk_retry_backoff_max)
          s)

  -- `__aenter__`
  unfoldable pub enter : Session → Method (Unit {0})
  enter s =
      and_then (λ credential s'. open_client credential (set_credential credential s'))
        (get_credential s.publisher.credential s)

  abbrev pub exit_sender : Option ℕ → Session → Method (Unit {0})
  exit_sender none s = (ok tt, s)
  exit_sender (some sender) s =
      and_then (λ _ s'. (ok tt, record s' { publisher = record s'.publisher { sender = none } }))
        (calling (close_sender sender) s)

  abbrev pub exit_client : Option ℕ → Session → Method (Unit {0})
  exit_client none s = (ok tt, s)
  exit_client (some client) s =
      and_then (λ _ s'. (ok tt, record s' { publisher = record s'.publisher { client = none } }))
        (calling (close_client client) s)

  abbrev pub exit_credential : Bool → Option ℕ → Session → Method (Unit {0})
  exit_credential true (some credential) s =
      and_then
        (λ _ s'. (ok tt, record s' { publisher = record s'.publisher { credential = none } }))
        (calling (close_credential credential) s)
  exit_credential _ _ s = (ok tt, s)

  -- `__aexit__`
  unfoldable pub exit : Session → Method (Unit {0})
  exit s =
      and_then (λ _ s''. exit_credential s''.publisher.owns_credential s''.publisher.credential s'')
        (and_then (λ _ s'. exit_client s'.publisher.client s') (exit_sender s.publisher.sender s))

  abbrev pub send_with : Printer → OutboundEvent → Option ℕ → Session → Method (Unit {0})
  send_with printer event none s = (err not_open, s)
  send_with printer event (some sender) s =
      and_then (λ _ s'. (ok tt, s'))
        (calling (send_messages sender (to_service_bus_message printer event)) s)

  -- `publish`
  unfoldable pub publish : Printer → OutboundEvent → Session → Method (Unit {0})
  publish printer event s = send_with printer event s.publisher.sender s

  -- a block that publishes these events, whether or not each call returns
  unfoldable pub publish_each : Printer → List OutboundEvent → Session → Session
  unfolding publish
  publish_each printer [] s = s
  publish_each printer (e ∷ es) s = publish_each printer es (publish printer e s).1
