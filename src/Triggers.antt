-- ===== src/Triggers.antt =====
-- handlers/misttriggers: the broker that calls the callbacks of a trigger, the USER_NEW trigger,
-- and the payloads of the others.
pub mod Broker
pub mod UserNew
pub mod Payloads
pub mod Health
