-- ===== src/Handler.antt =====
-- asio/internal/AsioClient.h, classes DeliverHandler and PublishHandler: what a client does with a
-- package that is no answer. A function of the user is a value of a type, `D` for a delivery and `F`
-- for a publication; a call of one is listed with its arguments.
use asio.Prelude.{ℕ, List, [], ◌∷◌, ◌++◌, Option, none, some, ◌==◌, if◌then◌else◌, Bytes, bytes_key}
use asio.Prelude.Assoc.{find, assign}
use asio.Package.{Package, new_package, pubsub, deliver}

-- The two classes, each with its `map_`.
pub data Handler (D F : Type 0) : Type 0 where
  deliver_handler : List (Bytes × D) → Handler D F
  publish_handler : List (Bytes × F) → Handler D F

-- What a handler does: it gives its thread pool a task, or calls the function.
pub data Effect (M D F : Type 0) : Type 0 where
  runs : D → Package M → Effect M D F
  calls : F → Option M → Effect M D F

abbrev pub keys : {V : Type 0} → List (Bytes × V) → List Bytes
keys [] = []
keys ((k, v) ∷ m) = k ∷ keys m

module _ {D F : Type 0} where
  -- `addHandleDeliver` and `addHandlePublish`.
  unfoldable pub add_handle_deliver : Bytes → D → Handler D F → Handler D F
  add_handle_deliver name func (deliver_handler m) = deliver_handler (assign name func m)
  add_handle_deliver name func (publish_handler m) = publish_handler m

  unfoldable pub add_handle_publish : Bytes → F → Handler D F → Handler D F
  add_handle_publish name func (deliver_handler m) = deliver_handler m
  add_handle_publish name func (publish_handler m) = publish_handler (assign name func m)

  -- `type`.
  abbrev pub handler_type : Handler D F → ℕ
  handler_type (deliver_handler m) = deliver
  handler_type (publish_handler m) = pubsub

  -- `typeNames`; the order of the keys is that of the list here.
  abbrev pub type_names : Handler D F → List Bytes
  type_names (deliver_handler m) = keys m
  type_names (publish_handler m) = keys m

  module _ {M : Type 0} where
    abbrev found_deliver : Package M → Option D → List (Effect M D F)
    found_deliver p none = []
    found_deliver p (some func) = runs func p ∷ []

    abbrev found_publish : Package M → Option F → List (Effect M D F)
    found_publish p none = []
    found_publish p (some func) = calls func p.msg_ptr ∷ []

    -- `onPackage`.
    unfoldable pub on_package : Package M → Handler D F → List (Effect M D F)
    on_package p (deliver_handler m) =
        if p.header.msg_type == deliver then found_deliver p (find p.type_name m) else []
    on_package p (publish_handler m) =
        if p.header.msg_type == pubsub then found_publish p (find p.type_name m) else []

    -- The loop of `AsioClient::doResponse` over the handlers.
    unfoldable pub on_packages : Package M → List (Handler D F) → List (Effect M D F)
    on_packages p [] = []
    on_packages p (h ∷ hs) = on_package p h ++ on_packages p hs

-- The two loops of `AsioClient::startSubscribe`: the lists of kinds and of type names, as pairs.
abbrev pub with_type : ℕ → List Bytes → List (ℕ × Bytes)
with_type t [] = []
with_type t (name ∷ names) = (t, name) ∷ with_type t names

unfoldable pub subscriptions : {D F : Type 0} → List (Handler D F) → List (ℕ × Bytes)
subscriptions [] = []
subscriptions (h ∷ hs) = with_type (handler_type h) (type_names h) ++ subscriptions hs

-- The package that `replyDeliver` posts, from the type name and the message of the answer.
unfoldable pub reply_deliver : {M : Type 0} → (M → Bytes) → Package M → M → Package M
reply_deliver {M} type_name_of req msg = record (new_package M) {
  header = req.header;
  type_name = type_name_of msg;
  msg_ptr = some msg;
}
