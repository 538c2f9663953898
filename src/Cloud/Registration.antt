-- ===== src/Cloud/Registration.antt =====
-- artik_cloud.c: the secure device registration. An argument that is NULL is none.
use testing.Base.{ℕ, codes, Option, none, some, List, [], ◌∷◌, ◌>>=◌}
use testing.Cloud.{
  get, post, put, secure_element, HttpRequest, Event, Outcome, Environment, url_of, body_size,
  body_of, http_status, registration_status, perform,
}

abbrev secure_url_reg_device : List ℕ
secure_url_reg_device = codes "https://s-api.artik.cloud/v1.1/cert/devices/registrations"

abbrev secure_url_reg_id : List ℕ
secure_url_reg_id = codes "https://s-api.artik.cloud/v1.1/cert/devices/registrations/%s"

abbrev pub secure_url_reg_status : List ℕ
secure_url_reg_status = codes "https://s-api.artik.cloud/v1.1/cert/devices/registrations/%s/status"

abbrev pub secure_reg_device_body : List ℕ
secure_reg_device_body = codes "{\"deviceTypeId\":\"%s\",\"vendorDeviceId\":\"%s\"}"

abbrev pub secure_reg_complete_body : List ℕ
secure_reg_complete_body = codes "{\"nonce\":\"%s\"}"

abbrev registration_headers : List (List ℕ × List ℕ)
registration_headers =
    (codes "Accept", codes "application/json")
    ∷ (codes "Content-Type", codes "application/json")
    ∷ (codes "charsets:", codes "utf-8")
    ∷ []

module _ (env : Environment) where
  unfoldable pub sdr_start_registration :
      Option (List ℕ) → Option (List ℕ) → List (Event HttpRequest) → Option Outcome
  sdr_start_registration device_type_id vendor_id = perform env do
    device_type ← device_type_id
    vendor ← vendor_id
    some record {
      request = record {
        method = post;
        url = secure_url_reg_device;
        headers = registration_headers;
        body = some (body_of secure_reg_device_body (device_type ∷ vendor ∷ []));
        ssl_config = secure_element;
      };
      body_len = some (body_size secure_reg_device_body (device_type ∷ vendor ∷ []));
      of_status = registration_status;
    }

  unfoldable pub sdr_registration_status :
      Option (List ℕ) → List (Event HttpRequest) → Option Outcome
  sdr_registration_status reg_id = perform env do
    registration ← reg_id
    some record {
      request = record {
        method = get;
        url = url_of secure_url_reg_status (registration ∷ []);
        headers = (codes "Accept", codes "application/json") ∷ [];
        body = none;
        ssl_config = secure_element;
      };
      body_len = none;
      of_status = http_status;
    }

  unfoldable pub sdr_complete_registration :
      Option (List ℕ) → Option (List ℕ) → List (Event HttpRequest) → Option Outcome
  sdr_complete_registration reg_id reg_nonce = perform env do
    registration ← reg_id
    nonce ← reg_nonce
    some record {
      request = record {
        method = put;
        url = url_of secure_url_reg_id (registration ∷ []);
        headers = registration_headers;
        body = some (body_of secure_reg_complete_body (nonce ∷ []));
        ssl_config = secure_element;
      };
      body_len = some (body_size secure_reg_complete_body (nonce ∷ []));
      of_status = http_status;
    }
