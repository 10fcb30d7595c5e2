-- ===== src/Webhook.antt =====
-- internal/log-pilot-api: the admission webhook that injects log collection into pods.
pub mod Injector
pub mod Server
