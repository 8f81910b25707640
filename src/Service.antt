-- ===== src/Service.antt =====
-- Package service (service/types.go and service/errors.go): the types that all layers share.
pub mod Provider
pub mod Errors
