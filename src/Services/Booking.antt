-- ===== src/Services/Booking.antt =====
-- The price and the booking of a call, src/calls/calls.module.ts.
use zudue_api.Base.{String, Option, [], ◌∷◌}
use zudue_api.Json.{Json, str}
use zudue_api.Effect.{M}
use zudue_api.Effect.Database.{run_as, db_rpc}
use zudue_api.Effect.Requests.{named, text_arg, cast_arg}
use zudue_api.Admin.Arguments.{or_null}

unfoldable pub preview_price : String → String → String → Option Json → M (Option Json)
unfolding or_null
preview_price u partner_id duration promo = run_as u (
    db_rpc (
      named "rpc_preview_price" (
        text_arg partner_id
        ∷ cast_arg (str "VIDEO_CALL") "public.service_type_enum"
        ∷ cast_arg (str duration) "public.call_duration_options_enum"
        ∷ or_null promo
        ∷ [])))

unfoldable pub book :
    String → String → String → String → Option Json → Option Json → M (Option Json)
unfolding or_null
book u partner_id date duration note promo = run_as u (
    db_rpc (
      named "rpc_book_video_call" (
        text_arg u
        ∷ text_arg partner_id
        ∷ cast_arg (str date) "date"
        ∷ cast_arg (str duration) "public.call_duration_options_enum"
        ∷ or_null note
        ∷ or_null promo
        ∷ [])))

-- The routes that write, with the path's `id` and the body.
pub data BookingAction : Type 0 where
  get_preview : String → String → Option Json → BookingAction
  post_book : String → String → String → Option Json → Option Json → BookingAction

unfoldable pub booking : String → BookingAction → M (Option Json)
unfolding book preview_price
booking u (get_preview p d c) = preview_price u p d c
booking u (post_book p d l n c) = book u p d l n c
