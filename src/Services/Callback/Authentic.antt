-- ===== src/Services/Callback/Authentic.antt =====
-- About the checks that a notification passes before any statement.
use drogon_pay.Common.{
  ◌≡◌, refl, ◌⊎◌, inl, inr, true, none, some, arith, Option-cases, Bytes, bytes_eq, starts_with,
}
use drogon_pay.Services.Callback.Types.{Delivery, WechatClient, Resource, Notice, Answer, Env}
use drogon_pay.Services.Callback.Window.{is_timestamp_fresh}
use drogon_pay.Services.Callback.Verify.{
  Event, check_resource, check_notice, Opened, decrypt, verify_signature, open_envelope,
  check_nonce,
}

check_resource-passes :
    (event : Event) (resource_type : Bytes) (resource other : Resource)
    → check_resource event resource_type resource ≡ inr other
    → (resource ≡ other) × (bytes_eq other.associated_data event.associated ≡ true)
unfolding check_resource
check_resource-passes event resource_type resource other e = ground (arith, e)

check_notice-passes :
    (event : Event) (notice : Notice) (resource : Resource)
    → check_notice event notice ≡ inr resource
    → (starts_with event.prefix notice.event_type ≡ true)
      × (bytes_eq resource.associated_data event.associated ≡ true)
unfolding check_notice
check_notice-passes event notice resource e = elim (Option-cases notice.resource) [
  | inl missing ↦ absurd (ground (arith, e))
  | inr (inner, there) ↦
      ground (arith, e, check_resource-passes event notice.resource_type inner resource)
]

module _ (env : Env) (event : Event) (client : WechatClient) (delivery : Delivery) where
  -- The client's word for a delivery and what is read of it.
  pub record Authentic (id text : Bytes) : Type 0 where
    pub notice : Notice
    pub resource : Resource
    pub is_client : env.wechat_client ≡ some client
    pub verified : verify_signature client delivery ≡ true
    pub fresh : is_timestamp_fresh env.now_sec delivery.timestamp ≡ none
    pub body : env.read_notice delivery.body ≡ some notice
    pub its_id : notice.id ≡ id
    pub its_resource : check_notice event notice ≡ inr resource
    pub its_event : starts_with event.prefix notice.event_type ≡ true
    pub its_data : bytes_eq resource.associated_data event.associated ≡ true
    pub decrypted :
        client.decrypt_resource resource.ciphertext resource.resource_nonce resource.associated_data
        ≡ inr text
    pub first_sight : check_nonce env.redis delivery.nonce ≡ true

  decrypt-opened :
      (id : Bytes) (checked : Answer ⊎ Resource) (opened : Opened)
      → decrypt client id checked ≡ inr opened
      → (resource : Resource) × (checked ≡ inr resource)
        × (id ≡ opened.id)
        × (client.decrypt_resource resource.ciphertext resource.resource_nonce
              resource.associated_data
            ≡ inr opened.plaintext)
  unfolding decrypt
  decrypt-opened id (inl answer) opened e = absurd (ground (arith, e))
  decrypt-opened id (inr resource) opened e = (resource, refl, ground (arith, e), ground (arith, e))

  pub open_envelope-Authentic :
      (opened : Opened)
      → env.wechat_client ≡ some client
      → check_nonce env.redis delivery.nonce ≡ true
      → open_envelope env event client delivery ≡ inr opened
      → Authentic opened.id opened.plaintext
  unfolding open_envelope
  open_envelope-Authentic opened its_client first e =
      elim (Option-cases (env.read_notice delivery.body)) [
        | inl unread ↦ absurd (ground (arith, e))
        | inr (notice, body) ↦
            let found =
              decrypt-opened notice.id (check_notice event notice) opened (ground (arith, e)) in
            let shape = check_notice-passes event notice found.0 found.1 in
            record {
              notice = notice;
              resource = found.0;
              is_client = its_client;
              verified = ground (arith, e);
              fresh = ground (arith, e);
              body = body;
              its_id = found.2;
              its_resource = found.1;
              its_event = shape.0;
              its_data = shape.1;
              decrypted = found.3;
              first_sight = first;
            }
      ]
