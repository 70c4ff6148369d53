-- ===== src/Config.antt =====
-- email-network-service/src/config.py: the settings that arguments override. The integers and the
-- floats of the arguments are parameters, with the test for zero that `if args.x` makes.
use rdt_mail_service.Prelude.{◌≡◌, refl, Bool, true, Option, none, some, if◌then◌else◌}

pub record Settings (Int Float : Type 0) : Type 0 where
  pub num_users : Int
  pub num_emails_per_user : Int
  pub concurrency : Int
  pub delay_between_sends : Float
  pub message_size : Int

-- What `parse_args` gives.
pub record Args (Int Float : Type 0) : Type 0 where
  pub num_users : Option Int
  pub num_emails : Option Int
  pub concurrency : Option Int
  pub delay_between_sends : Option Float
  pub message_size : Option Int

-- `if arg: setting = arg`
unfoldable pub override : {A : Type 0} → (A → Bool) → Option A → A → A
override is_zero none old = old
override is_zero (some x) old = if is_zero x then old else x

module _ {Int Float : Type 0} (int_is_zero : Int → Bool) (float_is_zero : Float → Bool) where
  unfoldable pub apply_args : Args Int Float → Settings Int Float → Settings Int Float
  unfolding override
  apply_args args s = record {
    num_users = override int_is_zero args.num_users s.num_users;
    num_emails_per_user = override int_is_zero args.num_emails s.num_emails_per_user;
    concurrency = override int_is_zero args.concurrency s.concurrency;
    delay_between_sends = override float_is_zero args.delay_between_sends s.delay_between_sends;
    message_size = override int_is_zero args.message_size s.message_size;
  }

  -- An argument that is zero changes nothing: a delay of 0 leaves the delay as it was.
  pub apply_args_zero_delay :
      (args : Args Int Float) (s : Settings Int Float) (x : Float)
      → args.delay_between_sends ≡ some x
      → float_is_zero x ≡ true
      → (apply_args args s).delay_between_sends ≡ s.delay_between_sends
  unfolding apply_args override
  apply_args_zero_delay args s x h z = rw (h, z) refl
