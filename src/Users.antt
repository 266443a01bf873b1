-- ===== src/Users.antt =====
-- module/user/service/user.go and tools/security/jwt.go: the tokens of users, and the sessions that a
-- login makes and a request is checked against, in a collection of MongoDB behind a cache in Redis.
pub mod Jwt
pub mod Store
pub mod Requests
pub mod Sessions
